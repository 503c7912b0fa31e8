-- ===== src/Core/Keeps.antt =====
-- Calls that keep a property of their state, however they end.
use green_communuty_backend.Prelude.{Bool, true, false, inl, inr, Bool-cases, if◌then◌else◌}
use green_communuty_backend.Core.Action.{Action, Result-cases, ◌>>=◌, modify, pure}
use green_communuty_backend.Core.Session.{Engine, flush}
use green_communuty_backend.Core.Session.Holds.{Holds, Holds-write, Holds-commit}
use green_communuty_backend.Models.{Tables}

abbrev pub Keeps : {S A : Type 0} → (S → Type 0) → Action S A → Type 0
Keeps {S} I m = (s : S) → I s → I (m s).1

pub Keeps-bind :
    {S A B : Type 0} (I : S → Type 0) (m : Action S A) (k : A → Action S B)
    → Keeps I m
    → ((a : A) → Keeps I (k a))
    → Keeps I (m >>= k)
Keeps-bind I m k km kk s h = elim (Result-cases (m s).0) [
  | inl (a, e) ↦ rw e (kk a (m s).1 (km s h))
  | inr (x, e) ↦ rw e (km s h)
]

pub Keeps-if :
    {S A : Type 0} (I : S → Type 0) (c : Bool) (m k : Action S A)
    → Keeps I m
    → Keeps I k
    → Keeps I (if c then m else k)
Keeps-if I true m k km kk = km
Keeps-if I false m k km kk = kk

module _ (E : Engine) (P : Tables → Type 0) where
  pub Keeps-flush : (t : Tables) → P t → Keeps (Holds E P) (flush E t)
  unfolding flush
  Keeps-flush t p s h = elim (Bool-cases (E.accepts t s)) [
    | inl taken ↦ rw taken (Holds-write E P t s p h)
    | inr refused ↦ rw refused h
  ]

  pub Keeps-commit : Keeps (Holds E P) (modify E.commit)
  Keeps-commit s h = Holds-commit E P s h

  -- A change that gives something back, and one that is committed.
  pub Keeps-flush-pure :
      {A : Type 0} (t : Tables) (a : A) → P t → Keeps (Holds E P) (flush E t >>= λ _. pure a)
  Keeps-flush-pure t a p =
      Keeps-bind (Holds E P) (flush E t) (λ _. pure a) (Keeps-flush t p) (λ _ v h. h)

  pub Keeps-then_commit :
      {A : Type 0} (m : Action E.Session A)
      → Keeps (Holds E P) m
      → {B : Type 0} (k : A → B)
      → Keeps (Holds E P) (m >>= λ a. (modify E.commit >>= λ _. pure (k a)))
  Keeps-then_commit m km k =
      Keeps-bind (Holds E P) m _ km
        (λ a. Keeps-bind (Holds E P) (modify E.commit) (λ _. pure (k a)) Keeps-commit (λ _ v h. h))
