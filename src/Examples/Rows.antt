-- ===== src/Examples/Rows.antt =====
-- A small community: two users, a post, a comment and a report.
use green_communuty_backend.Prelude.{true, false, none, some, [], ◌∷◌}
use green_communuty_backend.Core.World.{World}
use green_communuty_backend.Models.{
  User, UserRole, Post, PostStatus, Report, ContentType, ReportStatus, Tables,
}
use green_communuty_backend.Examples.Database.{State, permissive}
use green_communuty_backend.Examples.Cache.{Log, cache}

abbrev pub ann : User
ann = record {
  user_id = 1;
  user_email = "ann@example.com";
  user_password_hash = "secret";
  user_nickname = "ann";
  user_role = UserRole.user;
  user_is_active = true;
}

abbrev pub bob : User
bob = record ann {
  user_id = 2;
  user_email = "bob@example.com";
  user_nickname = "bob";
  user_role = UserRole.admin;
}

abbrev pub hello : Post
hello = record {
  post_id = 1;
  post_title = "Hello";
  post_content = "First post";
  author_id = 1;
  post_view_count = 0;
  post_status = PostStatus.published;
  post_is_notice = false;
  deleted_at = none;
}

abbrev pub complaint : Report
complaint = record {
  report_id = 1;
  reporter_user_id = some 2;
  report_content_type = ContentType.post;
  post_id = some 1;
  post_title = some "Hello";
  post_content = some "First post";
  comment_id = none;
  comment_content = none;
  reported_user_id = 1;
  report_category = "SPAM";
  report_reason = none;
  report_status = ReportStatus.pending;
  user_sanction_type = none;
  reviewer_user_id = none;
  processed_at = none;
  created_at = 5;
}

-- A report of a user, which no post can be hidden for.
abbrev pub complaint_of_user : Report
complaint_of_user = record complaint {
  report_id = 2;
  report_content_type = ContentType.user_itself;
  post_id = none;
  post_title = none;
  post_content = none;
}

abbrev pub community : Tables
community = record {
  users = ann ∷ bob ∷ [];
  menus = [];
  posts = hello ∷ [];
  likes = [];
  images = [];
  comments = [];
  reports = complaint ∷ complaint_of_user ∷ [];
  sanctions = [];
}

abbrev pub opened : State
opened = record { live = community; saved = community }

abbrev pub nothing_cached : Log
nothing_cached = record { texts = []; hits = []; members = []; lifetimes = [] }

abbrev pub started : World permissive cache
started = record { session = opened; store = nothing_cached }
