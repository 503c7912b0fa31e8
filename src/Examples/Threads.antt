-- ===== src/Examples/Threads.antt =====
-- Comments, likes and reports at concrete inputs.
use green_communuty_backend.Prelude.{
  ℕ, ◌≡◌, ◌≢◌, refl, Bool, true, none, some, select, first, update, count, if◌then◌else◌, ◌==◌,
  ◌&&◌, one_or_none, arith,
}
use green_communuty_backend.Core.Errors.{value_error}
use green_communuty_backend.Core.Action.{ok, err}
use green_communuty_backend.Core.Session.Holds.{Holds}
use green_communuty_backend.Core.Session.{flush}
use green_communuty_backend.Core.World.{World}
use green_communuty_backend.Models.{Report, ContentType, SanctionType}
use green_communuty_backend.Comments.Service as CommentService
use green_communuty_backend.Comments.Service.{CommentCreate}
use green_communuty_backend.Comments.Keeps.{Threaded, create-Threaded}
use green_communuty_backend.Posts.Repository as PostRepository
use green_communuty_backend.Posts.Service as PostService
use green_communuty_backend.Posts.Repository.Sync.{scan_like_to_db}
use green_communuty_backend.Posts.Likes.{like_post-liked, scan_like_to_db-liked}
use green_communuty_backend.Reports.Repository.{same_reports, decide, decided_by}
use green_communuty_backend.Reports.Repository as ReportRepository
use green_communuty_backend.Reports.Service.{
  ReportProcessRequest, ReportCreateRequest, check_process, process_report, decision, add_report,
  commit_or_rollback, apply_decision, hide_content, add_user_sanction, check_expiry,
}
use green_communuty_backend.Reports.Process.{
  process_report-rollback, process_report-decides, process_report-not_hidden,
}
use green_communuty_backend.Reports.Nulls.{add_report-refused}
use green_communuty_backend.Examples.Database.{State, permissive, strict, strict-refuses}
use green_communuty_backend.Examples.Cache.{cache, cache-texts}
use green_communuty_backend.Examples.Rows.{
  ann, bob, hello, complaint, complaint_of_user, opened, community, started,
}

pub opened-Threaded : Holds permissive (Threaded permissive) opened
unfolding select first
opened-Threaded =
    let threaded : Threaded permissive community = record {
      older = λ c p m h. ground arith;
      flat = λ c p m q h. ground arith;
    } in
    record { live = threaded; saved = threaded }

abbrev thought : CommentCreate
thought = record { comment_content = "Nice"; parent_comment_id = none }

abbrev answer : CommentCreate
answer = record { comment_content = "Indeed"; parent_comment_id = some 1 }

abbrev commented : State
commented = (CommentService.create permissive 3 1 ann thought opened).1

commented-Threaded : Holds permissive (Threaded permissive) commented
commented-Threaded = create-Threaded permissive 3 1 ann thought opened opened-Threaded

create-Threaded_example :
    Holds permissive
      (Threaded permissive)
      (CommentService.create permissive 4 1 bob answer commented).1
create-Threaded_example = create-Threaded permissive 4 1 bob answer commented commented-Threaded

abbrev likes_of : World permissive cache → ℕ → ℕ → Bool
likes_of w p u = PostRepository.get_like cache p u w.session.live.likes w.store

found_hello : PostService.find_post 1 community.posts ≡ ok hello
unfolding PostService.find_post PostRepository.get_by_id select one_or_none
found_hello = refl

like_post-liked_example :
    likes_of (PostService.like_post permissive cache 1 ann started).1 1 1
    ≡ (if 1 == 1 && 1 == 1 then true else likes_of started 1 1)
like_post-liked_example =
    like_post-liked permissive cache cache-texts started 1 ann hello 1 1 found_hello

abbrev after_like : World permissive cache
after_like = record started { store = PostRepository.add_like cache 1 1 started.store }

waiting_like : likes_of after_like 1 1 ≡ true
unfolding PostRepository.get_like PostRepository.add_like
waiting_like = refl

scan_like_to_db-liked_example :
    likes_of (scan_like_to_db permissive cache after_like).1 1 1 ≡ likes_of after_like 1 1
unfolding PostRepository.add_like
scan_like_to_db-liked_example =
    scan_like_to_db-liked permissive cache cache-texts after_like 1 1 refl

abbrev ban : ReportProcessRequest
ban = record { accepts = true; user_sanction_type = some SanctionType.banned; expires_at = none }

-- The checks pass for both reports.
checked_complaint : check_process permissive 1 ban community ≡ ok complaint
unfolding check_process ReportRepository.get_by_id PostRepository.get_any_by_id select one_or_none
    first
checked_complaint = refl

checked_complaint_of_user : check_process permissive 2 ban community ≡ ok complaint_of_user
unfolding check_process ReportRepository.get_by_id PostRepository.get_any_by_id select one_or_none
    first
checked_complaint_of_user = refl

process_report-not_hidden_example : (process_report permissive 9 2 2 ban opened).0 ≢ ok tt
process_report-not_hidden_example =
    process_report-not_hidden permissive 9 2 2 ban opened complaint_of_user
      checked_complaint_of_user (λ h. cc) refl refl

failed_ban : (process_report permissive 9 2 2 ban opened).0 ≡ err value_error
unfolding process_report commit_or_rollback apply_decision hide_content
    ReportRepository.update_report flush
failed_ban = rw checked_complaint_of_user refl

process_report-rollback_example :
    permissive.saved (process_report permissive 9 2 2 ban opened).1 ≡ community
process_report-rollback_example =
    process_report-rollback permissive 9 2 2 ban opened value_error failed_ban

done_ban : (process_report permissive 9 1 2 ban opened).0 ≡ ok tt
unfolding process_report commit_or_rollback apply_decision hide_content add_user_sanction
    ReportRepository.update_report ReportRepository.add_user_sanction
    PostRepository.hide_if_published check_expiry flush PostRepository.get_any_by_id one_or_none
    select PostRepository.flush_changes
done_ban = rw checked_complaint refl

process_report-decides_example :
    (report : Report) × (same : Report → Bool) × (check_process permissive 1 ban community
      ≡ ok report)
    × (same_reports report ≡ ok same)
    × ((permissive.saved (process_report permissive 9 1 2 ban opened).1).reports
        ≡ update (decided_by same) (decide (decision permissive 9 2 ban)) community.reports)
    × (count
          (decided_by same)
          (permissive.saved (process_report permissive 9 1 2 ban opened).1).reports
        ≡ 0)
process_report-decides_example = process_report-decides permissive 9 1 2 ban opened done_ban

abbrev complain : ReportCreateRequest
complain = record {
  report_content_type = ContentType.post;
  post_id = some 1;
  comment_id = none;
  reported_user_id = none;
  report_category = "SPAM";
  report_reason = none;
}

add_report-refused_example : (add_report strict 6 complain bob opened).0 ≢ ok complaint
add_report-refused_example =
    add_report-refused strict strict-refuses 6 complain bob opened complaint
