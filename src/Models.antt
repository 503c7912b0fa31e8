-- ===== src/Models.antt =====
-- The tables (the *_model.py files of app/modules). A timestamp column that no code reads back is
-- left out.
use green_communuty_backend.Prelude.{ℕ, String, Bool, Option, List}

-- app/modules/users/user_model.py
pub data UserRole : Type 0 where
  user admin : UserRole

pub record User : Type 0 where
  pub user_id : ℕ
  pub user_email : String
  pub user_password_hash : String
  pub user_nickname : String
  pub user_role : UserRole
  pub user_is_active : Bool

-- app/modules/menus/menu_model.py
pub record Menu : Type 0 where
  pub menu_id : ℕ
  pub menu_name : String
  pub menu_parent_id : Option ℕ
  pub deleted_at : Option ℕ

-- app/modules/posts/post_model.py
pub data PostStatus : Type 0 where
  published hidden deleted : PostStatus

pub record Post : Type 0 where
  pub post_id : ℕ
  pub post_title : String
  pub post_content : String
  pub author_id : ℕ
  pub post_view_count : ℕ
  pub post_status : PostStatus
  pub post_is_notice : Bool
  pub deleted_at : Option ℕ

-- app/modules/posts/post_like_model.py
pub record PostLike : Type 0 where
  pub post_id : ℕ
  pub user_id : ℕ

-- app/modules/posts/post_image_model.py
pub record PostImage : Type 0 where
  pub image_id : ℕ
  pub post_id : ℕ
  pub image_original_path : String
  pub image_content_path : String
  pub image_thumbnail_path : String

-- app/modules/comments/comment_model.py
pub record Comment : Type 0 where
  pub comment_id : ℕ
  pub comment_content : String
  pub post_id : ℕ
  pub author_id : ℕ
  pub parent_comment_id : Option ℕ
  pub created_at : ℕ
  pub deleted_at : Option ℕ

-- app/modules/reports/report_model.py
pub data ContentType : Type 0 where
  post comment user_itself : ContentType

pub data ReportStatus : Type 0 where
  pending accepted rejected : ReportStatus

pub data SanctionType : Type 0 where
  warning suspended banned : SanctionType

pub record Report : Type 0 where
  pub report_id : ℕ
  pub reporter_user_id : Option ℕ
  pub report_content_type : ContentType
  pub post_id : Option ℕ
  pub post_title : Option String
  pub post_content : Option String
  pub comment_id : Option ℕ
  pub comment_content : Option String
  pub reported_user_id : ℕ
  pub report_category : String
  pub report_reason : Option String
  pub report_status : ReportStatus
  pub user_sanction_type : Option SanctionType
  pub reviewer_user_id : Option ℕ
  pub processed_at : Option ℕ
  pub created_at : ℕ

-- app/modules/users/user_sanctions_model.py
pub record UserSanction : Type 0 where
  pub user_sanction_id : ℕ
  pub reported_user_id : ℕ
  pub user_sanction_type : SanctionType
  pub user_sanction_reason : String
  pub report_id : ℕ
  pub expires_at : Option ℕ

-- The rows of every table, in the order of the primary keys.
pub record Tables : Type 0 where
  pub users : List User
  pub menus : List Menu
  pub posts : List Post
  pub likes : List PostLike
  pub images : List PostImage
  pub comments : List Comment
  pub reports : List Report
  pub sanctions : List UserSanction
