-- ===== src/Reports/Frame.antt =====
-- The parts of `process_report` after the reports are written, and what they leave alone.
use green_communuty_backend.Prelude.{ℕ, ◌≡◌, inl, inr, Bool-cases, Option, none, some, List}
use green_communuty_backend.Core.Action.{Action, Result-cases, ◌>>=◌, pure, lift}
use green_communuty_backend.Core.Session.{Engine, flush}
use green_communuty_backend.Models.{Post, UserSanction, Report, ContentType, SanctionType, Tables}
use green_communuty_backend.Posts.Repository as PostRepository
use green_communuty_backend.Reports.Repository as Repository
use green_communuty_backend.Reports.Service.{
  hide_post, hide_content, check_expiry, add_user_sanction, sanction, sanction_draft,
}

module _ (E : Engine) (committed : Tables) (reports : List Report) where
  pub record Frame (s : E.Session) : Type 0 where
    pub saved : E.saved s ≡ committed
    pub live : (E.live s).reports ≡ reports

  abbrev pub KeepsFrame : {A : Type 0} → Action E.Session A → Type 0
  KeepsFrame m = (s : E.Session) → Frame s → Frame (m s).1

  pub flush-Frame :
      (t : Tables) (s : E.Session) → t.reports ≡ reports → Frame s → Frame (flush E t s).1
  unfolding flush
  flush-Frame t s same h = elim (Bool-cases (E.accepts t s)) [
    | inl taken ↦
        rw taken (record { saved = rw E.saved-write h.saved; live = rw E.live-write same })
    | inr refused ↦ rw refused h
  ]

  pub bind-Frame :
      {A B : Type 0} (m : Action E.Session A) (f : A → Action E.Session B)
      → KeepsFrame m
      → ((a : A) → KeepsFrame (f a))
      → KeepsFrame (m >>= f)
  bind-Frame m f km kf s h = elim (Result-cases (m s).0) [
    | inl (a, e) ↦ rw e (kf a (m s).1 (km s h))
    | inr (x, e) ↦ rw e (km s h)
  ]

  hide_found-Frame :
      (id : ℕ) (found : Option Post) → KeepsFrame (PostRepository.hide_found E id found)
  unfolding PostRepository.flush_changes
  hide_found-Frame id none s h = h
  hide_found-Frame id (some p) s h = elim (Bool-cases (PostRepository.is_published p.post_status)) [
    | inl visible ↦ rw visible (flush-Frame _ s h.live h)
    | inr already ↦ rw already h
  ]

  hide_if_published-Frame : (id : ℕ) → KeepsFrame (PostRepository.hide_if_published E id)
  unfolding PostRepository.hide_if_published
  hide_if_published-Frame id s h =
      hide_found-Frame id (PostRepository.get_any_by_id id (E.live s).posts) s h

  hide_post-Frame : (post : Option ℕ) → KeepsFrame (hide_post E post)
  hide_post-Frame none s h = h
  hide_post-Frame (some id) s h = hide_if_published-Frame id s h

  pub hide_content-Frame :
      (type : ContentType) (post : Option ℕ) → KeepsFrame (hide_content E type post)
  unfolding hide_content
  hide_content-Frame ContentType.post post s h = hide_post-Frame post s h
  hide_content-Frame ContentType.comment post s h = h
  hide_content-Frame ContentType.user_itself post s h = h

  store_sanction-Frame :
      (draft : ℕ → UserSanction) → KeepsFrame (Repository.add_user_sanction E draft)
  unfolding Repository.add_user_sanction
  store_sanction-Frame draft s h =
      bind-Frame (flush E _) (λ _. pure _) (λ s' h'. flush-Frame _ s' h.live h') (λ a s' h'. h') s h

  add_user_sanction-Frame :
      (r : Report) (type : SanctionType) (expires : Option ℕ)
      → KeepsFrame (add_user_sanction E r type expires)
  unfolding add_user_sanction
  add_user_sanction-Frame r type expires =
      bind-Frame (lift (check_expiry type expires)) _ (λ s h. h)
        (λ a.
          bind-Frame (Repository.add_user_sanction E (sanction_draft E r type expires)) _
            (store_sanction-Frame (sanction_draft E r type expires)) (λ b s h. h))

  pub sanction-Frame :
      (r : Report) (type : Option SanctionType) (expires : Option ℕ)
      → KeepsFrame (sanction E r type expires)
  sanction-Frame r none expires s h = h
  sanction-Frame r (some type) expires s h = add_user_sanction-Frame r type expires s h
