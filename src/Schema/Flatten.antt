-- ===== src/Schema/Flatten.antt =====
-- The order in which the operations of a schema change are carried out.
use mathlib.Core.List.{append-nil, append_assoc}
use green_communuty_backend.Prelude.{
  ℕ, zero, suc, ◌+◌, ◌≤◌, ◌≡◌, refl, sym, ap, ◌∙◌, some, List, [], ◌∷◌, ◌++◌, arith,
}
use green_communuty_backend.Core.Action.{ok}
use green_communuty_backend.Schema.{
  Step, Operation, Operations, single, bundle, done, next, put_before, append_step, drain, size,
  collect_operations,
}

-- A bundle's operations stand in its place, in their order.
unfoldable mutual
  pub flatten_one : Operation → List Step
  flatten_one (single step) = step ∷ []
  flatten_one (bundle ops) = flatten ops

  pub flatten : Operations → List Step
  flatten done = []
  flatten (next op ops) = flatten_one op ++ flatten ops

flatten-put_before :
    (ops pending : Operations) → flatten (put_before ops pending) ≡ flatten ops ++ flatten pending
unfolding put_before flatten
flatten-put_before done pending = refl
flatten-put_before (next op ops) pending =
    ap (λ l. flatten_one op ++ l) (flatten-put_before ops pending)
    ∙ sym (append_assoc (flatten_one op) (flatten ops) (flatten pending))

size-put_before :
    (ops pending : Operations) → size (put_before ops pending) ≡ size ops + size pending
unfolding put_before size
size-put_before done pending = omega arith
size-put_before (next op ops) pending = omega (arith, size-put_before ops pending)

append_step_end : (steps : List Step) (step : Step) → append_step steps step ≡ steps ++ step ∷ []
unfolding append_step
append_step_end [] step = refl
append_step_end (s ∷ steps) step = ap (λ l. s ∷ l) (append_step_end steps step)

drain-flatten :
    (fuel : ℕ) (steps : List Step) (ops : Operations)
    → size ops ≤ fuel
    → drain fuel steps ops ≡ ok (steps ++ flatten ops)
unfolding drain size flatten
drain-flatten fuel steps done enough = ap ok (sym (append-nil steps))
drain-flatten zero steps (next (single step) ops) enough = absurd (omega (arith, enough))
drain-flatten zero steps (next (bundle inner) ops) enough = absurd (omega (arith, enough))
drain-flatten (suc fuel) steps (next (single step) ops) enough =
    drain-flatten fuel (append_step steps step) ops (omega (arith, enough))
    ∙ ap (λ l. ok (l ++ flatten ops)) (append_step_end steps step)
    ∙ ap ok (append_assoc steps (step ∷ []) (flatten ops))
drain-flatten (suc fuel) steps (next (bundle inner) ops) enough =
    drain-flatten fuel steps (put_before inner ops)
      (omega (arith, enough, size-put_before inner ops))
    ∙ ap (λ l. ok (steps ++ l)) (flatten-put_before inner ops)

-- The loop of `_collect_operations` ends, with as much fuel as there are operations and bundles,
-- and its list has the operations without parts in depth-first order, each bundle's in its place.
pub collect_operations-flatten :
    (ops : Operations) → collect_operations (some ops) ≡ ok (flatten ops)
unfolding collect_operations
collect_operations-flatten ops = drain-flatten (size ops) [] ops (omega arith)
