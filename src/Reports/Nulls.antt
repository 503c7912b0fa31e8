-- ===== src/Reports/Nulls.antt =====
-- The columns of app/modules/reports/report_model.py that are declared NOT NULL, and the values
-- that the service gives them.
use green_communuty_backend.Prelude.{
  ℕ, String, ◌≡◌, ◌≢◌, refl, Bool, true, false, ◌||◌, inl, inr, Option, none, some, List, [], ◌∷◌,
  ◌++◌, map, is_none, arith,
}
use green_communuty_backend.Core.Action.{ok, Result-cases, ◌>>◌}
use green_communuty_backend.Core.Session.{Engine, flush}
use green_communuty_backend.Models.{Report, ContentType, User, Tables}
use green_communuty_backend.Reports.Repository as Repository
use green_communuty_backend.Reports.Service.{
  ReportCreateRequest, Target, find_target, validate_report, draft, commit_or_rollback, add_report,
}

-- `post_title`, `post_content` and `comment_content` are declared with nullable=False.
abbrev pub has_null : Option String → Option String → Option String → Bool
has_null title content comment = is_none title || is_none content || is_none comment

-- The database refuses an INSERT with a null in a NOT NULL column.
pub record RefusesNulls (E : Engine) : Type 0 where
  pub refuses :
      (t : Tables) (r : Report) (rows : List Report) (s : E.Session)
      → t.reports ≡ rows ++ r ∷ []
      → has_null r.post_title r.post_content r.comment_content ≡ true
      → E.accepts t s ≡ false

target_has_null :
    (type : ContentType) (post comment user : Option ℕ) (t : Tables) (found : Target)
    → find_target type post comment user t ≡ ok found
    → has_null found.post_title found.post_content found.comment_content ≡ true
unfolding find_target
target_has_null ContentType.post none comment user t found e = ground arith
target_has_null ContentType.post (some p) none user t found e = ground arith
target_has_null ContentType.post (some p) (some c) user t found e = ground arith
target_has_null ContentType.comment none comment user t found e = ground arith
target_has_null ContentType.comment (some p) none user t found e = ground arith
target_has_null ContentType.comment (some p) (some c) user t found e = ground arith
target_has_null ContentType.user_itself none none user t found e = ground arith
target_has_null ContentType.user_itself none (some c) user t found e = ground arith
target_has_null ContentType.user_itself (some p) comment user t found e = ground arith

-- A refused INSERT makes the whole call raise.
refused_insert :
    (E : Engine) (insert : ℕ → Report) (s : E.Session) (r : Report)
    → E.accepts
        (record (E.live s) {
          reports =
              (E.live s).reports
              ++ insert (E.next_id (map (λ r. r.report_id) (E.live s).reports) s) ∷ [];
        })
        s
      ≡ false
    → (commit_or_rollback E (Repository.add_report E insert) s).0 ≢ ok r
unfolding commit_or_rollback Repository.add_report flush
refused_insert E insert s r full =
    rw (commit_or_rollback, Repository.add_report, ◌>>◌, full) (λ h. cc)

-- Over a database that refuses an INSERT with a null in one of the three NOT NULL columns for the
-- reported texts, `add_report` returns no report, whatever is reported.
pub add_report-refused :
    (E : Engine) (columns : RefusesNulls E) (now : ℕ) (request : ReportCreateRequest)
    (current : User) (s : E.Session) (r : Report)
    → (add_report E now request current s).0 ≢ ok r
unfolding add_report validate_report
add_report-refused E columns now request current s r done =
    elim (Result-cases (
      find_target request.report_content_type request.post_id request.comment_id
        request.reported_user_id (E.live s))) [
          | inr (e, stopped) ↦ ground arith
          | inl (found, e) ↦
              refused_insert E (draft E now request current found) s r
                (columns.refuses _ _ (E.live s).reports s refl (
                  target_has_null request.report_content_type request.post_id request.comment_id
                    request.reported_user_id (E.live s) found e))
                (rw e at done)
        ]
