-- ===== src/Reports/Service.antt =====
-- app/modules/reports/report_service.py
use green_communuty_backend.Prelude.{
  ℕ, String, Bool, true, false, not, ◌&&◌, Option, none, some, List, ◌==◌, is_none, is_some, str_eq,
  if◌then◌else◌,
}
use green_communuty_backend.Core.Errors.{value_error, not_found}
use green_communuty_backend.Core.Action.{
  Action, Result, ok, err, ◌>>=◌, ◌>>◌, gets, pure, lift, raise_if, ◌and_then◌,
}
use green_communuty_backend.Core.Session.{Engine}
use green_communuty_backend.Core.Pagination as Pagination
use green_communuty_backend.Core.Pagination.{PageParams, PageResponse, offset}
use green_communuty_backend.Models.{
  Report, ContentType, ReportStatus, SanctionType, UserSanction, User, Post, Comment, Tables,
}
use green_communuty_backend.Posts.Repository as PostRepository
use green_communuty_backend.Comments.Repository as CommentRepository
use green_communuty_backend.Reports.Repository as Repository
use green_communuty_backend.Reports.Repository.{is_pending, Decision}

-- app/modules/reports/report_schemas.py
pub record ReportCreateRequest : Type 0 where
  pub report_content_type : ContentType
  pub post_id : Option ℕ
  pub comment_id : Option ℕ
  pub reported_user_id : Option ℕ
  pub report_category : String
  pub report_reason : Option String

-- The schema admits only ACCEPTED (true) and REJECTED (false).
pub record ReportProcessRequest : Type 0 where
  pub accepts : Bool
  pub user_sanction_type : Option SanctionType
  pub expires_at : Option ℕ

abbrev pub status_of : Bool → ReportStatus
status_of true = ReportStatus.accepted
status_of false = ReportStatus.rejected

-- What `_validate_report` returns.
pub record Target : Type 0 where
  pub reported_user_id : ℕ
  pub post_title : Option String
  pub post_content : Option String
  pub comment_content : Option String

abbrev pub post_target : Option Post → Result Target
post_target none = err not_found
post_target (some p) = ok (record {
  reported_user_id = p.author_id;
  post_title = some p.post_title;
  post_content = some p.post_content;
  comment_content = none;
})

abbrev pub comment_on : Comment → Option Post → Result Target
comment_on c none = err not_found
comment_on c (some p) = ok (record {
  reported_user_id = c.author_id;
  post_title = some p.post_title;
  post_content = none;
  comment_content = some c.comment_content;
})

abbrev pub comment_target : ℕ → List Post → Option Comment → Result Target
comment_target post posts none = err not_found
comment_target post posts (some c) =
    if not (c.post_id == post)
    then err value_error
    else comment_on c (PostRepository.get_any_by_id c.post_id posts)

abbrev pub user_target : Option ℕ → Result Target
user_target none = err value_error
user_target (some user) = ok (record {
  reported_user_id = user;
  post_title = none;
  post_content = none;
  comment_content = none;
})

-- The branches of `_validate_report` by what is reported.
unfoldable pub find_target : ContentType → Option ℕ → Option ℕ → Option ℕ → Tables → Result Target
find_target ContentType.post none comment user t = err value_error
find_target ContentType.post (some p) (some c) user t = err value_error
find_target ContentType.post (some p) none user t =
    post_target (PostRepository.get_any_by_id p t.posts)
find_target ContentType.comment none comment user t = err value_error
find_target ContentType.comment (some p) none user t = err value_error
find_target ContentType.comment (some p) (some c) user t =
    comment_target p t.posts (CommentRepository.get_by_id c t.comments)
find_target ContentType.user_itself (some p) comment user t = err value_error
find_target ContentType.user_itself none (some c) user t = err value_error
find_target ContentType.user_itself none none user t = user_target user

-- `_validate_report`: without a status for a new report, with it for one to process.
unfoldable pub validate_report :
    ContentType → Option ℕ → Option ℕ → Option ℕ → Option ReportStatus → Tables → Result Target
unfolding find_target
validate_report type post comment user none t = find_target type post comment user t
validate_report type post comment user (some status) t =
    raise_if (not (is_pending status)) value_error and_then find_target type post comment user t

abbrev pub is_warning_or_none : Option SanctionType → Bool
is_warning_or_none none = true
is_warning_or_none (some SanctionType.warning) = true
is_warning_or_none (some SanctionType.suspended) = false
is_warning_or_none (some SanctionType.banned) = false

abbrev pub is_suspension : SanctionType → Bool
is_suspension SanctionType.suspended = true
is_suspension SanctionType.warning = false
is_suspension SanctionType.banned = false

-- Python's `report_reason or report_category`
abbrev pub reason_or : Option String → String → String
reason_or none category = category
reason_or (some reason) category = if str_eq reason "" then category else reason

-- The checks of `_add_user_sanction`.
unfoldable pub check_expiry : SanctionType → Option ℕ → Result (Unit {0})
check_expiry type expires =
    raise_if (is_suspension type && is_none expires) value_error
    and_then raise_if (not (is_suspension type) && is_some expires) value_error

module _ (E : Engine) where
  open E use {Session, live, commit, rollback}

  -- `try: body; commit` with `except Exception: rollback; raise`
  unfoldable pub commit_or_rollback : {A : Type 0} → Action Session A → Action Session A
  commit_or_rollback body s =
      let (r, s') = body s in elim r [ ok a ↦ (ok a, commit s') | err e ↦ (err e, rollback s') ]

  abbrev pub draft : ℕ → ReportCreateRequest → User → Target → ℕ → Report
  draft now request current target id = record {
    report_id = id;
    reporter_user_id = some current.user_id;
    report_content_type = request.report_content_type;
    post_id = request.post_id;
    post_title = target.post_title;
    post_content = target.post_content;
    comment_id = request.comment_id;
    comment_content = target.comment_content;
    reported_user_id = target.reported_user_id;
    report_category = request.report_category;
    report_reason = request.report_reason;
    report_status = ReportStatus.pending;
    user_sanction_type = none;
    reviewer_user_id = none;
    processed_at = none;
    created_at = now;
  }

  unfoldable pub add_report : ℕ → ReportCreateRequest → User → Action Session Report
  add_report now request current = do
    t ← gets live
    target ← lift (
        validate_report request.report_content_type request.post_id request.comment_id
          request.reported_user_id none t)
    commit_or_rollback (Repository.add_report E (draft now request current target))

  unfoldable pub list_reports : PageParams → Action Session (PageResponse Report)
  list_reports params = do
    t ← gets live
    pure (
        Pagination.create (Repository.list_reports (offset params) params.size t.reports)
          (Repository.count_by_total_reports t.reports) params)

  abbrev pub hide_post : Option ℕ → Action Session (Unit {0})
  hide_post none = lift (err value_error)
  hide_post (some post) = PostRepository.hide_if_published E post

  -- `_hide_reported_content`, by what was reported
  unfoldable pub hide_content : ContentType → Option ℕ → Action Session (Unit {0})
  hide_content ContentType.post post = hide_post post
  hide_content ContentType.comment post = lift (err value_error)
  hide_content ContentType.user_itself post = lift (err value_error)

  abbrev pub sanction_draft : Report → SanctionType → Option ℕ → ℕ → UserSanction
  sanction_draft report type expires id = record {
    user_sanction_id = id;
    reported_user_id = report.reported_user_id;
    user_sanction_type = type;
    user_sanction_reason = reason_or report.report_reason report.report_category;
    report_id = report.report_id;
    expires_at = expires;
  }

  -- `_add_user_sanction`
  unfoldable pub add_user_sanction : Report → SanctionType → Option ℕ → Action Session (Unit {0})
  unfolding check_expiry
  add_user_sanction report type expires = do
    lift (check_expiry type expires)
    Repository.add_user_sanction E (sanction_draft report type expires)
    pure tt

  -- The sanction that was asked for, if any.
  abbrev pub sanction : Report → Option SanctionType → Option ℕ → Action Session (Unit {0})
  sanction report none expires = pure tt
  sanction report (some type) expires = add_user_sanction report type expires

  abbrev pub decision : ℕ → ℕ → ReportProcessRequest → Decision
  decision now reviewer request = record {
    status = status_of request.accepts;
    sanction = request.user_sanction_type;
    reviewer = reviewer;
    at = now;
  }

  -- The body of the `try` in `process_report`, up to the commit.
  unfoldable pub apply_decision : ℕ → ℕ → ReportProcessRequest → Report → Action Session (Unit {0})
  unfolding hide_content add_user_sanction
  apply_decision now reviewer request report = do
    Repository.update_report E report (decision now reviewer request)
    (if request.accepts && not (is_warning_or_none request.user_sanction_type)
        then hide_content report.report_content_type report.post_id
        else pure tt)
    if request.accepts
        then sanction report request.user_sanction_type request.expires_at
        else pure tt

  abbrev pub found : Option Report → Result Report
  found none = err not_found
  found (some r) = ok r

  -- The checks of `process_report` before anything is written.
  unfoldable pub check_process : ℕ → ReportProcessRequest → Tables → Result Report
  unfolding validate_report
  check_process id request t = elim (found (Repository.get_by_id id t.reports)) [
    | err e ↦ err e
    | ok r ↦
        elim (validate_report r.report_content_type r.post_id r.comment_id (some r.reported_user_id)
          (some r.report_status) t) [
            | err e ↦ err e
            | ok target ↦
                raise_if (not request.accepts && is_some request.user_sanction_type) value_error
                and_then ok r
          ]
  ]

  unfoldable pub process_report : ℕ → ℕ → ℕ → ReportProcessRequest → Action Session (Unit {0})
  process_report now id reviewer request = do
    t ← gets live
    report ← lift (check_process id request t)
    commit_or_rollback (apply_decision now reviewer request report)
