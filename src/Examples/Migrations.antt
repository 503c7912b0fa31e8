-- ===== src/Examples/Migrations.antt =====
-- The migrations on a concrete database.
use mathlib.Core.List.{Memᴰ}
use green_communuty_backend.Prelude.{
  String, Option, none, some, List, [], ◌∷◌, ◌++◌, ◌≡◌, refl, true, false, is_some, ◌≢◌, str_eq,
  eq_iff, arith,
}
use green_communuty_backend.Core.Errors.{Error, integrity_error}
use green_communuty_backend.Core.Action.{Action, ok, err}
use green_communuty_backend.Migrations.Catalog.{Catalog}
use green_communuty_backend.Migrations.Operations.{Revision}
use green_communuty_backend.Migrations.Ddl.{ddl, ddl_all}
use green_communuty_backend.Migrations.Metadata.{create_all}
use green_communuty_backend.Migrations.Declared.{registered}
use green_communuty_backend.Migrations.Versions.Initial.{create_initial_schema}
use green_communuty_backend.Migrations.Versions.Menus.{add_menus_table}
use green_communuty_backend.Migrations.Versions.PostNames.{
  add_post_view_count, rename_user_id_to_user_id,
}
use green_communuty_backend.Migrations.Versions.Likes.{add_posts_like}
use green_communuty_backend.Migrations.Versions.Images.{
  add_posts_image, merge_migration_heads, add_user_is_active,
}
use green_communuty_backend.Migrations.Versions.Later.{
  add_auto_increment_to_posts_post_id, update_post_image_model, add_post_is_notice,
}
use green_communuty_backend.Migrations.Tables.{has}
use green_communuty_backend.Migrations.Revisions.{
  versions, ids, ready, Database, IsMysql, invoke_all, Upgrading, fresh, next,
}
use green_communuty_backend.Migrations.Upgrade.{
  migrated, unmigrated, upgrade-proceeds, upgrade_head-create_all,
}
use green_communuty_backend.Migrations.Undo.{outline, exempt}
use green_communuty_backend.Migrations.Downgrade.{downgrade-restores, redo-raises}

abbrev answered : Option Catalog → Action Catalog (Unit {0})
answered none c = (err integrity_error, c)
answered (some c') c = (ok tt, c')

abbrev schema_only : Database
schema_only = record {
  Connection = Catalog;
  invoke = λ op c. answered (ddl op c) c;
  reads = λ c. c;
}

schema_only-IsMysql : IsMysql schema_only
schema_only-IsMysql = record {
  carries = λ op s c e. (rw e refl, rw e refl);
  refuses = λ op s e. (integrity_error, rw e refl);
}

-- The schema after the migrations of a list, the latest first.
abbrev reached : List Revision → Catalog
reached [] = []
reached (r ∷ rs) = (invoke_all schema_only r.upgrade (reached rs)).1

abbrev OnTheWay : List Revision → Type 0
OnTheWay applied = Upgrading schema_only [] applied (reached applied)

on :
    (applied : List Revision) (r : Revision)
    → OnTheWay applied
    → Memᴰ r versions
    → ready applied r ≡ true
    → OnTheWay (r ∷ applied)
on applied r u m is_ready =
    next r u m is_ready (upgrade-proceeds schema_only schema_only-IsMysql refl u r m is_ready)

mem_create_initial_schema : Memᴰ create_initial_schema versions
unfolding versions
mem_create_initial_schema = Memᴰ.head refl

mem_add_menus_table : Memᴰ add_menus_table versions
unfolding versions
mem_add_menus_table = Memᴰ.tail (Memᴰ.head refl)

mem_add_post_view_count : Memᴰ add_post_view_count versions
unfolding versions
mem_add_post_view_count = Memᴰ.tail (Memᴰ.tail (Memᴰ.head refl))

mem_rename_user_id_to_user_id : Memᴰ rename_user_id_to_user_id versions
unfolding versions
mem_rename_user_id_to_user_id = Memᴰ.tail (Memᴰ.tail (Memᴰ.tail (Memᴰ.head refl)))

mem_add_posts_like : Memᴰ add_posts_like versions
unfolding versions
mem_add_posts_like = Memᴰ.tail (Memᴰ.tail (Memᴰ.tail (Memᴰ.tail (Memᴰ.head refl))))

mem_add_posts_image : Memᴰ add_posts_image versions
unfolding versions
mem_add_posts_image = Memᴰ.tail (Memᴰ.tail (Memᴰ.tail (Memᴰ.tail (Memᴰ.tail (Memᴰ.head refl)))))

mem_merge_migration_heads : Memᴰ merge_migration_heads versions
unfolding versions
mem_merge_migration_heads =
    Memᴰ.tail (Memᴰ.tail (Memᴰ.tail (Memᴰ.tail (Memᴰ.tail (Memᴰ.tail (Memᴰ.head refl))))))

mem_add_user_is_active : Memᴰ add_user_is_active versions
unfolding versions
mem_add_user_is_active =
    Memᴰ.tail
      (Memᴰ.tail (Memᴰ.tail (Memᴰ.tail (Memᴰ.tail (Memᴰ.tail (Memᴰ.tail (Memᴰ.head refl)))))))

mem_add_auto_increment_to_posts_post_id : Memᴰ add_auto_increment_to_posts_post_id versions
unfolding versions
mem_add_auto_increment_to_posts_post_id = Memᴰ.tail (
    Memᴰ.tail
      (Memᴰ.tail (Memᴰ.tail (Memᴰ.tail (Memᴰ.tail (Memᴰ.tail (Memᴰ.tail (Memᴰ.head refl))))))))

mem_update_post_image_model : Memᴰ update_post_image_model versions
unfolding versions
mem_update_post_image_model = Memᴰ.tail (
    Memᴰ.tail (
      Memᴰ.tail
        (Memᴰ.tail (Memᴰ.tail (Memᴰ.tail (Memᴰ.tail (Memᴰ.tail (Memᴰ.tail (Memᴰ.head refl)))))))))

mem_add_post_is_notice : Memᴰ add_post_is_notice versions
unfolding versions
mem_add_post_is_notice = Memᴰ.tail (
    Memᴰ.tail (
      Memᴰ.tail (
        Memᴰ.tail (
          Memᴰ.tail (Memᴰ.tail (Memᴰ.tail (Memᴰ.tail (Memᴰ.tail (Memᴰ.tail (Memᴰ.head refl))))))))))

abbrev two : List Revision
two = add_menus_table ∷ create_initial_schema ∷ []

first : OnTheWay (create_initial_schema ∷ [])
unfolding ready create_initial_schema
first = on [] create_initial_schema fresh mem_create_initial_schema refl

second : OnTheWay two
unfolding ready create_initial_schema add_menus_table
second = on (create_initial_schema ∷ []) add_menus_table first mem_add_menus_table refl

abbrev merged : List Revision
merged =
    merge_migration_heads ∷ add_posts_image ∷ add_posts_like ∷ rename_user_id_to_user_id
    ∷ add_post_view_count ∷ two

abbrev all : List Revision
all =
    add_post_is_notice ∷ update_post_image_model ∷ add_auto_increment_to_posts_post_id
    ∷ add_user_is_active ∷ merged

third : OnTheWay merged
unfolding ready create_initial_schema add_menus_table add_post_view_count rename_user_id_to_user_id
    add_posts_like add_posts_image merge_migration_heads add_user_is_active
    add_auto_increment_to_posts_post_id update_post_image_model add_post_is_notice
third =
    on (add_posts_image ∷ add_posts_like ∷ rename_user_id_to_user_id ∷ add_post_view_count ∷ two)
      merge_migration_heads
      (on (add_posts_like ∷ rename_user_id_to_user_id ∷ add_post_view_count ∷ two) add_posts_image
        (on (rename_user_id_to_user_id ∷ add_post_view_count ∷ two) add_posts_like
          (on (add_post_view_count ∷ two) rename_user_id_to_user_id
            (on (two) add_post_view_count (second) mem_add_post_view_count refl)
            mem_rename_user_id_to_user_id refl)
          mem_add_posts_like refl)
        mem_add_posts_image refl)
      mem_merge_migration_heads refl

last : OnTheWay all
unfolding ready create_initial_schema add_menus_table add_post_view_count rename_user_id_to_user_id
    add_posts_like add_posts_image merge_migration_heads add_user_is_active
    add_auto_increment_to_posts_post_id update_post_image_model add_post_is_notice
last =
    on (update_post_image_model ∷ add_auto_increment_to_posts_post_id ∷ add_user_is_active ∷ merged)
      add_post_is_notice
      (on (add_auto_increment_to_posts_post_id ∷ add_user_is_active ∷ merged)
        update_post_image_model
        (on (add_user_is_active ∷ merged) add_auto_increment_to_posts_post_id
          (on (merged) add_user_is_active (third) mem_add_user_is_active refl)
          mem_add_auto_increment_to_posts_post_id refl)
        mem_update_post_image_model refl)
      mem_add_post_is_notice refl

upgrade-proceeds_example :
    (invoke_all schema_only add_post_view_count.upgrade (reached two)).0 ≡ ok tt
unfolding ready create_initial_schema add_menus_table add_post_view_count
upgrade-proceeds_example =
    upgrade-proceeds schema_only schema_only-IsMysql refl second add_post_view_count
      mem_add_post_view_count refl

upgrade_head-create_all_example :
    (ddl_all (create_all migrated) [] ≡ some (reached all))
    × (is_some (ddl_all (create_all unmigrated) (reached all)) ≡ true)
    × (ddl_all (create_all unmigrated) (reached all) ≡ ddl_all (create_all registered) [])
unfolding ready has ids add_post_is_notice
upgrade_head-create_all_example =
    upgrade_head-create_all schema_only schema_only-IsMysql refl last refl

abbrev reached_back : Catalog
reached_back = (invoke_all schema_only add_menus_table.downgrade (reached two)).1

other_text : (s t : String) → str_eq s t ≡ false → s ≢ t
other_text s t h = ground (arith, eq_iff s t)

downgrade-restores_example :
    ((invoke_all schema_only add_menus_table.downgrade (reached two)).0 ≡ ok tt)
    × (outline (reached_back) ≡ outline (reached (create_initial_schema ∷ [])))
    × ((invoke_all schema_only add_menus_table.upgrade reached_back).0 ≡ ok tt)
unfolding ready create_initial_schema add_menus_table add_post_view_count
downgrade-restores_example =
    downgrade-restores schema_only schema_only-IsMysql refl first add_menus_table
      mem_add_menus_table refl (other_text _ _ refl) (other_text _ _ refl)

redo-raises_example :
    (e : Error) × ((invoke_all schema_only
        (add_post_view_count.downgrade ++ add_post_view_count.upgrade)
        (reached (add_post_view_count ∷ two))).0
      ≡ err e)
unfolding ready create_initial_schema add_menus_table add_post_view_count exempt
redo-raises_example =
    redo-raises schema_only schema_only-IsMysql refl second add_post_view_count
      mem_add_post_view_count refl refl
