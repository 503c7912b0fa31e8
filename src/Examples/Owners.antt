-- ===== src/Examples/Owners.antt =====
-- Deleting posts at concrete inputs.
use green_communuty_backend.Prelude.{◌≡◌, refl, true, none, some, select, update, one_or_none, ◌==◌}
use green_communuty_backend.Core.Action.{ok}
use green_communuty_backend.Core.Session.{flush}
use green_communuty_backend.Models.{User, Post}
use green_communuty_backend.Posts.Repository.{get_by_id, flush_changes}
use green_communuty_backend.Posts.Service.{PostUpdate, mark_deleted, get_owned, delete}
use green_communuty_backend.Posts.Ownership.{may_change, delete-ok}
use green_communuty_backend.Examples.Database.{permissive}
use green_communuty_backend.Examples.Cache.{cache}
use green_communuty_backend.Examples.Rows.{ann, hello, community, started}

abbrev dan : User
dan = record ann { user_id = 3 }

found_post : get_by_id 1 community.posts ≡ some hello
unfolding get_by_id select one_or_none
found_post = refl

removed : (delete permissive cache 9 1 ann started).0 ≡ ok tt
unfolding delete get_owned flush_changes flush
removed = rw found_post refl

delete-ok_example :
    (p : Post) × (get_by_id 1 community.posts ≡ some p)
    × (may_change ann p ≡ true)
    × ((delete permissive cache 9 1 ann started).1.session.saved.posts
        ≡ update (λ p. p.post_id == 1) (mark_deleted 9) community.posts)
    × (get_by_id 1 (delete permissive cache 9 1 ann started).1.session.saved.posts ≡ none)
delete-ok_example = delete-ok permissive cache 9 1 ann started removed

abbrev retitle : PostUpdate
retitle = record { post_title = some "Bye"; post_content = none }
