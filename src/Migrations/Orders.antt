-- ===== src/Migrations/Orders.antt =====
-- Every order that Alembic may take, and the schema that stands after it.
use mathlib.Core.List.{Memᴰ}
use mathlib.Core.List.Memᴰ
use mathlib.Core.List.Memᴰ.{not-nil}
use mathlib.Core.Path.{subst}
use native.Mathlib.Decide.{dec_le}
use green_communuty_backend.Prelude.{
  ℕ, zero, suc, ◌+◌, ◌-◌, ◌≤◌, Bool, true, false, not, ◌&&◌, ◌||◌, Option, none, some, List, [],
  ◌∷◌, ◌++◌, ◌≡◌, refl, inl, inr, arith, Bool-cases, sym, ◌∙◌, ap,
}
use green_communuty_backend.Migrations.Catalog.{Catalog}
use green_communuty_backend.Migrations.Operations.{Revision}
use green_communuty_backend.Migrations.Ddl.{ddl_all}
use green_communuty_backend.Migrations.Revisions.{versions, ready, Database, Upgrading, fresh, next}

unfoldable pub after : List Revision → Option Catalog
unfolding ddl_all
after [] = some []
after (r ∷ applied) = elim (after applied) [ none ↦ none | some c ↦ ddl_all r.upgrade c ]

-- One migration further, by each that is ready.
grow : List Revision → List Revision → List (List Revision)
unfolding ready
grow applied [] = []
grow applied (r ∷ rs) =
    let rest = grow applied rs in
    elim (ready applied r) [ true ↦ (r ∷ applied) ∷ rest | false ↦ rest ]

grow_all : List (List Revision) → List (List Revision)
unfolding grow versions
grow_all [] = []
grow_all (applied ∷ more) = grow applied versions ++ grow_all more

unfoldable pub orders : ℕ → List (List Revision)
unfolding grow_all
orders zero = [] ∷ []
orders (suc n) = grow_all (orders n)

unfoldable pub count : List Revision → ℕ
count [] = 0
count (r ∷ rs) = suc (count rs)

module _ {ℓ} {A : Type ℓ} where
  unfoldable pub each : (A → Bool) → List A → Bool
  each test [] = true
  each test (x ∷ xs) = test x && each test xs

  pub each-mem :
      (test : A → Bool) (a : A) (xs : List A) → each test xs ≡ true → Memᴰ a xs → test a ≡ true
  unfolding each
  each-mem test a [] h m = elim m [ ]
  each-mem test a (x ∷ xs) h (Memᴰ.head e) = ground arith
  each-mem test a (x ∷ xs) h (Memᴰ.tail m) = ground (arith, each-mem test a xs)

grow-mem :
    (applied : List Revision) (r : Revision) (rs : List Revision)
    → Memᴰ r rs
    → ready applied r ≡ true
    → Memᴰ (r ∷ applied) (grow applied rs)
unfolding grow
grow-mem applied r [] m is_ready = elim m [ ]
grow-mem applied r (q ∷ rs) (Memᴰ.head e) is_ready =
    rw (ap (ready applied) (sym e) ∙ is_ready, grow) (Memᴰ.head (ap (λ x. x ∷ applied) e))
grow-mem applied r (q ∷ rs) (Memᴰ.tail m) is_ready = elim (Bool-cases (ready applied q)) [
  | inl yes_q ↦ rw (yes_q, grow) (Memᴰ.tail (grow-mem applied r rs m is_ready))
  | inr no_q ↦ rw (no_q, grow) (grow-mem applied r rs m is_ready)
]

grow_all-mem :
    (applied grown : List Revision) (more : List (List Revision))
    → Memᴰ applied more
    → Memᴰ grown (grow applied versions)
    → Memᴰ grown (grow_all more)
unfolding grow_all
grow_all-mem applied grown [] m g = elim m [ ]
grow_all-mem applied grown (b ∷ more) (Memᴰ.head e) g =
    Memᴰ.append_left {s = grow b versions} (grow_all more)
      (subst (λ l. Memᴰ grown (grow l versions)) e g)
grow_all-mem applied grown (b ∷ more) (Memᴰ.tail m) g =
    Memᴰ.append_right (grow b versions) (grow_all-mem applied grown more m g)

pub or_true : (a b : Bool) → (not a || b) ≡ true → a ≡ true → b ≡ true
or_true a b h e = ground arith

-- What passes a test in every order of at most eleven migrations.
unfoldable pub passes : ℕ → (List Revision → Bool) → Bool
unfolding each orders
passes zero test = each test (orders 0)
passes (suc n) test = each test (orders (suc n)) && passes n test

passes_at :
    (n m : ℕ) (test : List Revision → Bool)
    → passes n test ≡ true
    → m ≤ n
    → each test (orders m) ≡ true
unfolding passes
passes_at zero zero test h le = h
passes_at zero (suc m) test h le = absurd (omega arith)
passes_at (suc n) m test h le = elim (dec_le m n) [
  | yes below ↦ passes_at n m test (ground arith) below
  | no above ↦ let at : m ≡ suc n = omega arith in rw at (ground arith)
]

no_more : (k n : ℕ) → n ≡ k + 12 → orders n ≡ []
unfolding orders
no_more zero n e = rw e refl
no_more (suc k) zero e = absurd (omega arith)
no_more (suc k) (suc n) e = rw (no_more k n (omega arith)) refl

module _ (D : Database) {start : D.Connection} where
  ordered :
      {applied : List Revision} {s : D.Connection}
      → Upgrading D start applied s
      → Memᴰ applied (orders (count applied))
  unfolding orders count
  ordered fresh = Memᴰ.head refl
  ordered (next {applied} r u m is_ready done) =
      grow_all-mem applied (r ∷ applied) (orders (count applied)) (ordered u)
        (grow-mem applied r versions m is_ready)

  -- A test that every order passes holds for what is applied.
  pub Upgrading-passes :
      (test : List Revision → Bool) (applied : List Revision) {s : D.Connection}
      → passes 11 test ≡ true
      → Upgrading D start applied s
      → test applied ≡ true
  Upgrading-passes test applied all u = elim (dec_le (count applied) 11) [
    | yes few ↦
        each-mem test applied (orders (count applied)) (passes_at 11 (count applied) test all few)
          (ordered u)
    | no many ↦ absurd (
        not-nil (
          subst (λ l. Memᴰ applied l) (no_more (count applied - 12) (count applied) (omega arith))
            (ordered u)))
  ]
