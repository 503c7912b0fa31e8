-- ===== src/Api/Menus.antt =====
-- app/modules/menus/menu_router.py, and the responses of app/modules/menus/menu_schemas.py without
-- the time stamps.
use green_communuty_backend.Prelude.{ℕ, String, Option}
use green_communuty_backend.Core.Action.{◌>>=◌, ◌>>◌, gets, lift, pure}
use green_communuty_backend.Core.Site.{in_session}
use green_communuty_backend.Models.{Menu}
use green_communuty_backend.Menus.Service as MenuService
use green_communuty_backend.Menus.Service.{MenuCreate, MenuUpdate, get_or_404}
use green_communuty_backend.Menus.Tree.{Nodes, get_tree}
use green_communuty_backend.Api.Platform.{Platform, Handler}

pub record MenuResponse : Type 0 where
  pub menu_id : ℕ
  pub menu_name : String
  pub menu_parent_id : Option ℕ

abbrev pub menu_response : Menu → MenuResponse
menu_response m = record {
  menu_id = m.menu_id;
  menu_name = m.menu_name;
  menu_parent_id = m.menu_parent_id;
}

pub data MenuCall : Type 0 where
  get_menu_tree : MenuCall
  get_menu : ℕ → MenuCall
  create_menu : MenuCreate → MenuCall
  update_menu : ℕ → MenuUpdate → MenuCall
  delete_menu : ℕ → MenuCall

pub data MenuReply : Type 0 where
  tree : Nodes → MenuReply
  one : MenuResponse → MenuReply
  no_content : MenuReply

module _ (P : Platform) where
  unfoldable pub handle_get_menu_tree : Handler P MenuReply
  handle_get_menu_tree = do
    t ← in_session P.engine P.redis P.storage (gets P.engine.live)
    pure (MenuReply.tree (get_tree t.menus))

  unfoldable pub handle_get_menu : ℕ → Handler P MenuReply
  handle_get_menu id = do
    t ← in_session P.engine P.redis P.storage (gets P.engine.live)
    menu ← lift (get_or_404 id t.menus)
    pure (MenuReply.one (menu_response menu))

  unfoldable pub handle_create_menu : MenuCreate → Handler P MenuReply
  handle_create_menu payload = do
    menu ← in_session P.engine P.redis P.storage (MenuService.create P.engine payload)
    pure (MenuReply.one (menu_response menu))

  unfoldable pub handle_update_menu : ℕ → MenuUpdate → Handler P MenuReply
  handle_update_menu id payload = do
    menu ← in_session P.engine P.redis P.storage (MenuService.update P.engine P.fuel id payload)
    pure (MenuReply.one (menu_response menu))

  unfoldable pub handle_delete_menu : ℕ → ℕ → Handler P MenuReply
  handle_delete_menu now id = do
    in_session P.engine P.redis P.storage (MenuService.delete P.engine now id)
    pure MenuReply.no_content

  unfoldable pub menus_router : ℕ → MenuCall → Handler P MenuReply
  menus_router now MenuCall.get_menu_tree = handle_get_menu_tree
  menus_router now (MenuCall.get_menu id) = handle_get_menu id
  menus_router now (MenuCall.create_menu payload) = handle_create_menu payload
  menus_router now (MenuCall.update_menu id payload) = handle_update_menu id payload
  menus_router now (MenuCall.delete_menu id) = handle_delete_menu now id
