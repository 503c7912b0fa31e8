-- ===== src/Reports/Process.antt =====
-- How `process_report` of app/modules/reports/report_service.py goes, step by step.
use green_communuty_backend.Prelude.{
  ℕ, ◌≡◌, ◌≢◌, refl, ◌∙◌, sym, ap, Bool, true, false, not, ◌&&◌, inl, inr, Bool-cases, Option, List,
  [], ◌∷◌, update, count, if◌then◌else◌, arith,
}
use green_communuty_backend.Core.Errors.{Error}
use green_communuty_backend.Core.Action.{ok_err, Action, Result, ok, err, Result-cases, ◌>>◌, pure}
use green_communuty_backend.Core.Session.{Engine, flush}
use green_communuty_backend.Models.{Report, ContentType, Tables}
use green_communuty_backend.Reports.Repository as Repository
use green_communuty_backend.Reports.Repository.{
  Decision, same_reports, decide, decided_by, is_pending,
}
use green_communuty_backend.Reports.Service.{
  ReportProcessRequest, is_warning_or_none, hide_content, sanction, decision, status_of,
  apply_decision, commit_or_rollback, check_process, process_report,
}
use green_communuty_backend.Reports.Frame.{
  Frame, KeepsFrame, bind-Frame, hide_content-Frame, sanction-Frame,
}

hide_raises :
    (E : Engine) (type : ContentType) (post : Option ℕ) (s : E.Session)
    → type ≢ ContentType.post
    → hide_content E type post s ≡ (err Error.value_error, s)
unfolding hide_content
hide_raises E ContentType.post post s other = absurd (other refl)
hide_raises E ContentType.comment post s other = refl
hide_raises E ContentType.user_itself post s other = refl

if-Frame :
    (E : Engine) (c : Tables) (l : List Report) (b : Bool) (m : Action E.Session (Unit {0}))
    → KeepsFrame E c l m
    → KeepsFrame E c l (if b then m else pure tt)
if-Frame E c l true m km s h = km s h
if-Frame E c l false m km s h = h

module _ (E : Engine) (now reviewer : ℕ) (request : ReportProcessRequest) (report : Report) where
  -- The rest of the `try` after the reports are written.
  abbrev rest : Action E.Session (Unit {0})
  rest =
      (if request.accepts && not (is_warning_or_none request.user_sanction_type)
        then hide_content E report.report_content_type report.post_id
        else pure tt)
      >> (if request.accepts
          then sanction E report request.user_sanction_type request.expires_at
          else pure tt)

  rest-Frame : (c : Tables) (l : List Report) → KeepsFrame E c l rest
  rest-Frame c l =
      bind-Frame E c l _ _
        (if-Frame E c l (request.accepts && not (is_warning_or_none request.user_sanction_type)) _
          (hide_content-Frame E c l report.report_content_type report.post_id))
        (λ a.
          if-Frame E c l request.accepts _
            (sanction-Frame E c l report request.user_sanction_type request.expires_at))

  abbrev decided : (Report → Bool) → E.Session → Tables
  decided same s = record (E.live s) {
    reports =
        update (decided_by same) (decide (decision E now reviewer request)) (E.live s).reports;
  }

  rest_stops :
      (s : E.Session)
      → report.report_content_type ≢ ContentType.post
      → request.accepts ≡ true
      → is_warning_or_none request.user_sanction_type ≡ false
      → (rest s).0 ≡ err Error.value_error
  rest_stops s other accepts severe =
      rw (accepts, severe, hide_raises E report.report_content_type report.post_id s other) refl

  -- How the `try` went: refused with nothing written, or the reports written and the rest run.
  data Course (s : E.Session) : Type 0 where
    refused : (e : Error) → apply_decision E now reviewer request report s ≡ (err e, s) → Course s
    written :
        (same : Report → Bool)
        → same_reports report ≡ ok same
        → apply_decision E now reviewer request report s ≡ rest (E.write (decided same s) s)
        → Course s

  course : (s : E.Session) → Course s
  unfolding apply_decision Repository.update_report flush
  course s = elim (Result-cases (same_reports report)) [
    | inr (e, malformed) ↦ refused e (rw malformed refl)
    | inl (same, target) ↦ elim (Bool-cases (E.accepts (decided same s) s)) [
      | inr no_room ↦ refused Error.integrity_error (rw (target, no_room) refl)
      | inl taken ↦ written same target (rw (target, taken) refl)
    ]
  ]

  written-Frame :
      (same : Report → Bool) (s : E.Session)
      → Frame E (E.saved s) (decided same s).reports (rest (E.write (decided same s) s)).1
  written-Frame same s =
      rest-Frame (E.saved s) (decided same s).reports (E.write (decided same s) s)
        (record { saved = E.saved-write _ s; live = rw E.live-write refl })

  apply_decision-saved :
      (s : E.Session) → E.saved (apply_decision E now reviewer request report s).1 ≡ E.saved s
  apply_decision-saved s = elim (course s) [
    | refused e stop ↦ rw stop refl
    | written same target go ↦ rw go (written-Frame same s).saved
  ]

  -- The reports that a successful `try` leaves for the commit.
  apply_decision-reports :
      (s : E.Session)
      → (apply_decision E now reviewer request report s).0 ≡ ok tt
      → (same : Report → Bool) × (same_reports report ≡ ok same)
        × ((E.live (apply_decision E now reviewer request report s).1).reports
            ≡ (decided same s).reports)
  apply_decision-reports s done = elim (course s) [
    | refused e stop ↦ absurd (ok_err tt e (sym done ∙ ap (λ x. x.0) stop))
    | written same target go ↦ (same, target, rw go (written-Frame same s).live)
  ]

not_pending : (b : Bool) → is_pending (status_of b) ≡ false
not_pending true = refl
not_pending false = refl

-- Once decided, none of the target's reports is pending.
none_pending :
    (E : Engine) (now reviewer : ℕ) (request : ReportProcessRequest) (same : Report → Bool)
    (rows : List Report)
    → count
        (decided_by same)
        (update (decided_by same) (decide (decision E now reviewer request)) rows)
      ≡ 0
unfolding count update
none_pending E now reviewer request same [] = refl
none_pending E now reviewer request same (r ∷ rows) =
    ground (arith, not_pending request.accepts, none_pending E now reviewer request same rows)

module _ (E : Engine) {A : Type 0} (m : Action E.Session A) (s : E.Session) where
  -- A block that raises is rolled back to what was committed.
  pub rolled_back :
      (e : Error)
      → (commit_or_rollback E m s).0 ≡ err e
      → E.saved (m s).1 ≡ E.saved s
      → (E.saved (commit_or_rollback E m s).1 ≡ E.saved s)
        × (E.live (commit_or_rollback E m s).1 ≡ E.saved s)
  unfolding commit_or_rollback
  rolled_back e failed kept = elim (Result-cases (m s).0) [
    | inl (a, fine) ↦ ground arith
    | inr (x, raised) ↦ (
      rw (raised, commit_or_rollback) (E.saved-rollback (m s).1 ∙ kept),
      rw (raised, commit_or_rollback) (E.live-rollback (m s).1 ∙ kept),
    )
  ]

  -- A block that returns is committed.
  pub committed :
      (a : A)
      → (commit_or_rollback E m s).0 ≡ ok a
      → ((m s).0 ≡ ok a) × (E.saved (commit_or_rollback E m s).1 ≡ E.live (m s).1)
  unfolding commit_or_rollback
  committed a done = elim (Result-cases (m s).0) [
    | inl (b, fine) ↦ (ground arith, rw (fine, commit_or_rollback) (E.saved-commit (m s).1))
    | inr (x, raised) ↦ ground arith
  ]

module _ (E : Engine) (now id reviewer : ℕ) (request : ReportProcessRequest) (s : E.Session) where
  abbrev pub outcome : Result (Unit {0}) × E.Session
  outcome = process_report E now id reviewer request s

  -- If `process_report` raises, whatever the step and the error, what is committed is what was
  -- committed before.
  pub process_report-rollback : (e : Error) → outcome.0 ≡ err e → E.saved outcome.1 ≡ E.saved s
  unfolding process_report
  process_report-rollback e failed = elim (Result-cases (check_process E id request (E.live s))) [
    | inr (x, stopped) ↦ rw stopped refl
    | inl (report, checked) ↦
        rw checked
          (rolled_back E (apply_decision E now reviewer request report) s e (rw checked at failed)
            (apply_decision-saved E now reviewer request report s)).0
  ]

  -- If `process_report` returns, then its checks had passed for a report; the committed reports
  -- are the earlier ones with the decision written on every pending report of the same target and
  -- on no other; and no report of that target is pending any more.
  pub process_report-decides :
      outcome.0 ≡ ok tt
      → (report : Report) × (same : Report → Bool) × (check_process E id request (E.live s)
          ≡ ok report)
        × (same_reports report ≡ ok same)
        × ((E.saved outcome.1).reports
            ≡ update
                (decided_by same)
                (decide (decision E now reviewer request))
                (E.live s).reports)
        × (count (decided_by same) (E.saved outcome.1).reports ≡ 0)
  unfolding process_report
  process_report-decides done = elim (Result-cases (check_process E id request (E.live s))) [
    | inr (x, stopped) ↦ absurd (ok_err tt x (sym done ∙ rw stopped refl))
    | inl (report, checked) ↦
        let (ran, kept) =
          committed E (apply_decision E now reviewer request report) s tt (rw checked at done) in
        let (same, target, reports) = apply_decision-reports E now reviewer request report s ran in
        let decided_reports = ap (λ (t : Tables). t.reports) kept ∙ reports in
        rw checked (
          report,
          same,
          refl,
          target,
          decided_reports,
          ap (count (decided_by same)) decided_reports
              ∙ none_pending E now reviewer request same (E.live s).reports,
        )
  ]

  -- If the checks pass for a report that is not about a post, and the request accepts it with a
  -- suspension or a ban, `process_report` does not return.
  pub process_report-not_hidden :
      (report : Report)
      → check_process E id request (E.live s) ≡ ok report
      → report.report_content_type ≢ ContentType.post
      → request.accepts ≡ true
      → is_warning_or_none request.user_sanction_type ≡ false
      → outcome.0 ≢ ok tt
  unfolding process_report
  process_report-not_hidden report checked other accepts severe done =
      let (ran, kept) =
        committed E (apply_decision E now reviewer request report) s tt (rw checked at done) in
      elim (course E now reviewer request report s) [
        | refused e stop ↦ ok_err tt e (sym ran ∙ ap (λ x. x.0) stop)
        | written same target go ↦ ok_err tt Error.value_error (
            sym ran
            ∙ ap (λ x. x.0) go
            ∙ rest_stops E now reviewer request report _ other accepts severe)
      ]
