-- ===== src/Reports/Repository.antt =====
-- app/modules/reports/report_repository.py and app/modules/users/user_sanctions_repository.py
use green_communuty_backend.Prelude.{
  ℕ, Bool, true, false, ◌&&◌, Option, none, some, List, [], ◌∷◌, ◌++◌, map, select, one_or_none,
  count, length, sort_by, update, take, drop, ltb, ◌==◌, opt_eq, is_none,
}
use green_communuty_backend.Core.Errors.{value_error}
use green_communuty_backend.Core.Action.{Action, Result, ok, err, ◌>>=◌, ◌>>◌, gets, pure, lift}
use green_communuty_backend.Core.Session.{Engine, flush}
use green_communuty_backend.Models.{Report, ContentType, ReportStatus, SanctionType, UserSanction}

abbrev pub is_pending : ReportStatus → Bool
is_pending ReportStatus.pending = true
is_pending ReportStatus.accepted = false
is_pending ReportStatus.rejected = false

abbrev pub same_type : ContentType → ContentType → Bool
same_type ContentType.post ContentType.post = true
same_type ContentType.comment ContentType.comment = true
same_type ContentType.user_itself ContentType.user_itself = true
same_type _ _ = false

abbrev pub on_post : ℕ → Report → Bool
on_post post r =
    same_type r.report_content_type ContentType.post
    && opt_eq r.post_id (some post)
    && is_none r.comment_id

abbrev pub on_comment : ℕ → ℕ → Report → Bool
on_comment post comment r =
    same_type r.report_content_type ContentType.comment
    && opt_eq r.post_id (some post)
    && opt_eq r.comment_id (some comment)

abbrev pub on_user : ℕ → Report → Bool
on_user user r =
    same_type r.report_content_type ContentType.user_itself
    && r.reported_user_id == user
    && is_none r.post_id
    && is_none r.comment_id

abbrev pub target_condition : ContentType → Option ℕ → Option ℕ → ℕ → Result (Report → Bool)
target_condition ContentType.post none comment user = err value_error
target_condition ContentType.post (some post) comment user = ok (on_post post)
target_condition ContentType.comment none comment user = err value_error
target_condition ContentType.comment (some post) none user = err value_error
target_condition ContentType.comment (some post) (some comment) user = ok (on_comment post comment)
target_condition ContentType.user_itself post comment user = ok (on_user user)

-- `_same_reports`: the condition for the reports of one target.
unfoldable pub same_reports : Report → Result (Report → Bool)
same_reports r = target_condition r.report_content_type r.post_id r.comment_id r.reported_user_id

unfoldable pub get_by_id : ℕ → List Report → Option Report
get_by_id id rows = one_or_none (select (λ r. r.report_id == id) rows)

abbrev newer : Report → Report → Bool
newer a b = ltb b.created_at a.created_at

-- ORDER BY created_at DESC; rows of one instant keep the order of the table.
unfoldable pub list_reports : ℕ → ℕ → List Report → List Report
list_reports offset limit rows =
    take limit (drop offset (sort_by newer (select (λ r. is_pending r.report_status) rows)))

unfoldable pub count_by_total_reports : List Report → ℕ
count_by_total_reports rows = count (λ r. is_pending r.report_status) rows

unfoldable pub count_by_report : Report → List Report → Result ℕ
unfolding same_reports
count_by_report r rows = elim (same_reports r) [ err e ↦ err e | ok same ↦ ok (count same rows) ]

-- What the administrator's decision writes on each report.
pub record Decision : Type 0 where
  pub status : ReportStatus
  pub sanction : Option SanctionType
  pub reviewer : ℕ
  pub at : ℕ

abbrev pub decide : Decision → Report → Report
decide d r = record r {
  report_status = d.status;
  user_sanction_type = d.sanction;
  reviewer_user_id = some d.reviewer;
  processed_at = some d.at;
}

abbrev pub decided_by : (Report → Bool) → Report → Bool
decided_by same r = is_pending r.report_status && same r

module _ (E : Engine) where
  open E use {Session, live, next_id}

  unfoldable pub add_report : (ℕ → Report) → Action Session Report
  add_report draft = do
    t ← gets live
    id ← gets (next_id (map (λ r. r.report_id) t.reports))
    flush E (record t { reports = t.reports ++ draft id ∷ [] })
    pure (draft id)

  -- All pending reports of the same target; returns their number.
  unfoldable pub update_report : Report → Decision → Action Session ℕ
  unfolding same_reports
  update_report r d = do
    same ← lift (same_reports r)
    t ← gets live
    flush E (record t { reports = update (decided_by same) (decide d) t.reports })
    pure (length (select (decided_by same) t.reports))

  unfoldable pub add_user_sanction : (ℕ → UserSanction) → Action Session UserSanction
  add_user_sanction draft = do
    t ← gets live
    id ← gets (next_id (map (λ s. s.user_sanction_id) t.sanctions))
    flush E (record t { sanctions = t.sanctions ++ draft id ∷ [] })
    pure (draft id)
