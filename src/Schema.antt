-- ===== src/Schema.antt =====
-- app/infrastructure/database/synchronize.py: the operations that bring the database to the models.
-- Alembic, which compares the two and carries an operation out, is a parameter.
pub mod Flatten
use Prim.Native.String.{◌++◌}
use green_communuty_backend.Prelude.{
  ℕ, zero, suc, ◌+◌, String, Bool, true, false, not, ◌&&◌, Option, none, some, List, [], ◌∷◌, map,
  length, str_eq, if◌then◌else◌,
}
use green_communuty_backend.Core.Errors.{diverged}
use green_communuty_backend.Core.Action.{Action, Result, ok, err, ◌>>=◌, ◌>>◌, lift, pure}

-- An operation without parts, with the attributes that `_describe` looks for.
pub record Step : Type 0 where
  pub type_name : String
  pub table_name : Option String
  pub column : Option String
  pub column_name : Option String
  pub index_name : Option String
  pub constraint_name : Option String

-- A bundle has an attribute `ops`.
mutual
  pub data Operation : Type 0 where
    single : Step → Operation
    bundle : Operations → Operation

  pub data Operations : Type 0 where
    done : Operations
    next : Operation → Operations → Operations

-- `children + pending`
unfoldable pub put_before : Operations → Operations → Operations
put_before done pending = pending
put_before (next op ops) pending = next op (put_before ops pending)

unfoldable pub append_step : List Step → Step → List Step
append_step [] step = step ∷ []
append_step (s ∷ steps) step = s ∷ append_step steps step

-- The `while` loop.
unfoldable pub drain : ℕ → List Step → Operations → Result (List Step)
unfolding put_before append_step
drain fuel operations done = ok operations
drain zero operations (next op pending) = err diverged
drain (suc fuel) operations (next (single step) pending) =
    drain fuel (append_step operations step) pending
drain (suc fuel) operations (next (bundle children) pending) =
    drain fuel operations (put_before children pending)

-- The number of operations, bundles included.
unfoldable mutual
  pub size_of : Operation → ℕ
  size_of (single step) = 1
  size_of (bundle ops) = suc (size ops)

  pub size : Operations → ℕ
  size done = 0
  size (next op ops) = size_of op + size ops

-- `_collect_operations`, of what Alembic produced
unfoldable pub collect_operations : Option Operations → Result (List Step)
unfolding drain size
collect_operations none = ok []
collect_operations (some ops) = drain (size ops) [] ops

abbrev alembic_version_table : String
alembic_version_table = "alembic_version"

abbrev is_text : String → Option String → Bool
is_text t none = false
is_text t (some s) = str_eq s t

-- `_include_object`
unfoldable pub include_object : Option String → String → Bool
include_object name type = not (str_eq type "table" && is_text alembic_version_table name)

-- Python's `a or b` of two optional texts
abbrev either : Option String → Option String → Option String
either none b = b
either (some a) b = if str_eq a "" then b else some a

abbrev part : String → Option String → String
part label none = ""
part label (some s) = if str_eq s "" then "" else " " ++ (label ++ ("=" ++ s))

-- `_describe`
unfoldable pub describe : Step → String
describe s =
    s.type_name
    ++ (part "table" s.table_name
        ++ (part "column" (either s.column s.column_name)
            ++ (part "index" s.index_name ++ part "constraint" s.constraint_name)))

module _ (Connection : Type 0) (produce : Connection → Option Operations)
    (invoke : Step → Action Connection (Unit {0})) where
  unfoldable pub preview_synchronize : Connection → Result (List String)
  unfolding collect_operations describe
  preview_synchronize c = elim (collect_operations (produce c)) [
    | err e ↦ err e
    | ok steps ↦ ok (map describe steps)
  ]

  unfoldable pub invoke_all : List Step → Action Connection (Unit {0})
  invoke_all [] c = (ok tt, c)
  invoke_all (step ∷ steps) c = (invoke step >> invoke_all steps) c

  -- A statement that was carried out stays so when a later one raises.
  unfoldable pub synchronize_database : Action Connection ℕ
  unfolding collect_operations invoke_all
  synchronize_database c =
      (do steps ← lift (collect_operations (produce c)); invoke_all steps; pure (length steps)) c
