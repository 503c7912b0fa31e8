-- ===== src/Migrations/Carried.antt =====
-- What a list of operations does on MySQL, and the schema after the migrations that are applied.
use green_communuty_backend.Prelude.{
  none, some, List, [], ◌∷◌, ◌≡◌, refl, inl, inr, arith, Option-cases, sym, ◌∙◌, ap,
}
use green_communuty_backend.Core.Errors.{Error}
use green_communuty_backend.Core.Action.{ok, err, ok_err, ◌>>=◌}
use green_communuty_backend.Migrations.Catalog.{Catalog}
use green_communuty_backend.Migrations.Operations.{Op, Revision}
use green_communuty_backend.Migrations.Ddl.{ddl, ddl_all}
use green_communuty_backend.Migrations.Revisions.{
  Database, IsMysql, invoke_all, Upgrading, fresh, next,
}
use green_communuty_backend.Migrations.Orders.{after}

module _ (D : Database) (mysql : IsMysql D) where
  open D use {Connection, invoke, reads}

  invoke_all-step :
      (op : Op) (ops : List Op) (s : Connection)
      → (invoke op s).0 ≡ ok tt
      → invoke_all D (op ∷ ops) s ≡ invoke_all D ops (invoke op s).1
  unfolding invoke_all
  invoke_all-step op ops s done = rw (done, ◌>>=◌) refl

  invoke_all-raised :
      (op : Op) (ops : List Op) (s : Connection) (e : Error)
      → (invoke op s).0 ≡ err e
      → (invoke_all D (op ∷ ops) s).0 ≡ err e
  unfolding invoke_all
  invoke_all-raised op ops s e raised = rw (raised, ◌>>=◌) refl

  pub invoke_all-carries :
      (ops : List Op) (s : Connection) (c : Catalog)
      → ddl_all ops (reads s) ≡ some c
      → ((invoke_all D ops s).0 ≡ ok tt) × (reads (invoke_all D ops s).1 ≡ c)
  unfolding ddl_all
  invoke_all-carries [] s c h = unfold invoke_all in (refl, ground arith)
  invoke_all-carries (op ∷ ops) s c h = elim (Option-cases (ddl op (reads s))) [
    | inl e ↦ absurd (ground arith)
    | inr (c', e) ↦
        let (done, then_reads) = mysql.carries op s c' e in
        let rest = invoke_all-carries ops (invoke op s).1 c (ground arith) in
        rw (invoke_all-step op ops s done) rest
  ]

  pub invoke_all-refuses :
      (ops : List Op) (s : Connection)
      → ddl_all ops (reads s) ≡ none
      → (e : Error) × ((invoke_all D ops s).0 ≡ err e)
  unfolding ddl_all
  invoke_all-refuses [] s h = absurd (ground arith)
  invoke_all-refuses (op ∷ ops) s h = elim (Option-cases (ddl op (reads s))) [
    | inl e ↦
        let (raised, at) = mysql.refuses op s e in (raised, invoke_all-raised op ops s raised at)
    | inr (c', e) ↦
        let (done, then_reads) = mysql.carries op s c' e in
        let (raised, at) = invoke_all-refuses ops (invoke op s).1 (ground arith) in
        (raised, rw (invoke_all-step op ops s done) at)
  ]

  -- The schema is the one that the applied migrations lead to.
  pub Upgrading-after :
      {start : Connection} {applied : List Revision} {s : Connection}
      → reads start ≡ []
      → Upgrading D start applied s
      → after applied ≡ some (reads s)
  unfolding after
  Upgrading-after empty fresh = ap some (sym empty)
  Upgrading-after {start} empty (next {applied} {s} r u m is_ready done) =
      elim (Option-cases (ddl_all r.upgrade (reads s))) [
        | inl refused ↦
            let (raised, at) = invoke_all-refuses r.upgrade s refused in
            absurd (ok_err tt raised (sym done ∙ at))
        | inr (c, carried) ↦
            let (_, then_reads) = invoke_all-carries r.upgrade s c carried in
            rw (Upgrading-after empty u, after) (carried ∙ ap some (sym then_reads))
      ]
