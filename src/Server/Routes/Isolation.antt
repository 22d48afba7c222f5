-- ===== src/Server/Routes/Isolation.antt =====
-- A scope reads nothing of what other profiles write.
use phantom_skills.Prelude.{
  ◌≡◌, refl, sym, subst, ap, String, Bool, true, false, Option, none, some, ◌==◌, ℤ, pos, negsuc,
  inl, inr, Bool-cases,
}
use phantom_skills.Text.{Text}
use phantom_skills.Store.Tables.{Db}
use phantom_skills.Store.Valid.{IsValid}
use phantom_skills.Store.Reach.{Call, perform}
use phantom_skills.Store.Tenants.{Apart, unchanged-Apart}
use phantom_skills.Store.Tenants.Writes.{perform-Apart}
use phantom_skills.Store.Tenants.Reads.{
  get_skill-Apart, list_skills-Apart, sync_feed-Apart, get_proposal-Apart, list_proposals-Apart,
  list_versions-Apart,
}
use phantom_skills.Scopes.{ScopeBinding, authenticate}
use phantom_skills.Server.Cursor.{Position, decode_cursor}
use phantom_skills.Server.Feed.{handle_sync, feed_reply}
use phantom_skills.Server.Api.{
  StoreRequest, Request, stored, get_skills, post_skill, write_json, get_one_skill, put_skill,
  delete_one_skill, get_versions, get_sync, post_usage, get_proposals, post_proposal,
  get_one_proposal, post_approve, post_reject, State, Wiring, Moment, feed, proposal_list,
}
use phantom_skills.Server.Handlers.{
  handle_list_skills, handle_get_skill, handle_list_versions, handle_list_proposals,
  handle_get_proposal, skill_reply, versions_reply, get_with, proposal_id, list_opts, listed_reply,
  proposal_reply,
}
use phantom_skills.Server.Routes.{with_store, require_store, guarded, serve}
use phantom_skills.Server.Routes.Calls.{Permits, serve-Serves, perform_maybe}

-- The routes of method GET.
abbrev pub is_read : StoreRequest → Bool
is_read (get_skills q) = true
is_read (get_one_skill name) = true
is_read (get_versions name) = true
is_read (get_sync since) = true
is_read (get_proposals status kind) = true
is_read (get_one_proposal id) = true
is_read (post_skill body) = false
is_read (put_skill name body) = false
is_read (delete_one_skill name) = false
is_read (post_usage body) = false
is_read (post_proposal body) = false
is_read (post_approve id body) = false
is_read (post_reject id body) = false

module _ (profile q : String) (other : (q == profile) ≡ false) (before after : Db)
    (a : Apart profile before after) (v : IsValid before) where
  get_with-Apart : (id : Option ℤ) → get_with q after id ≡ get_with q before id
  get_with-Apart none = refl
  get_with-Apart (some (pos id)) =
      ap proposal_reply (get_proposal-Apart profile q other before after a v id)
  get_with-Apart (some (negsuc n)) = refl

  handle_sync-Apart :
      (page : ℤ) (since : Text) → handle_sync q page after since ≡ handle_sync q page before since
  unfolding handle_sync
  handle_sync-Apart page since =
      let p : Position = decode_cursor since in
      ap (feed_reply p) (sync_feed-Apart profile q other before after a v p.ts p.id page)

  module _ (w : Wiring) (m : Moment) (s t : State) (from : s.db ≡ before) (to : t.db ≡ after) where
    with_store-Apart :
        (req : StoreRequest)
        → is_read req ≡ true
        → (with_store w m q req t).0 ≡ (with_store w m q req s).0
    unfolding with_store handle_list_skills handle_get_skill handle_list_versions
        handle_list_proposals handle_get_proposal
    with_store-Apart (get_skills query) h =
        rw (from, to)
          (ap listed_reply (list_skills-Apart profile q other before after a v (list_opts query)))
    with_store-Apart (get_one_skill name) h =
        rw (from, to) (ap skill_reply (get_skill-Apart profile q other before after a v name))
    with_store-Apart (get_versions name) h =
        rw (from, to)
          (ap versions_reply (list_versions-Apart profile q other before after a v name))
    with_store-Apart (get_sync since) h =
        rw (from, to) (ap (λ r. write_json 200 (feed r)) (handle_sync-Apart w.page since))
    with_store-Apart (get_proposals status kind) h =
        rw (from, to)
          (ap (λ ps. write_json 200 (proposal_list ps))
            (list_proposals-Apart profile q other before after a v status kind))
    with_store-Apart (get_one_proposal id) h = rw (from, to) (get_with-Apart (proposal_id id))
    with_store-Apart (post_skill body) h = cc
    with_store-Apart (put_skill name body) h = cc
    with_store-Apart (delete_one_skill name) h = cc
    with_store-Apart (post_usage body) h = cc
    with_store-Apart (post_proposal body) h = cc
    with_store-Apart (post_approve id body) h = cc
    with_store-Apart (post_reject id body) h = cc

    require_store-Apart :
        (req : StoreRequest)
        → is_read req ≡ true
        → (require_store w m q req t).0 ≡ (require_store w m q req s).0
    unfolding require_store
    require_store-Apart req h = elim (Bool-cases w.has_store) [
      | inl e ↦ rw (e, require_store) (with_store-Apart req h)
      | inr e ↦ rw (e, require_store) refl
    ]

permitted-Apart :
    (w : Wiring) (b : ScopeBinding) (call : Option Call) (db : Db)
    → IsValid db
    → Permits (some b) call
    → Apart b.key.profile db (perform_maybe w call db)
permitted-Apart w b none db v h = unchanged-Apart b.key.profile db
permitted-Apart w b (some call) db v h =
    subst (λ profile. Apart profile db (perform w.codecs w.source call db)) h
      (perform-Apart w.codecs w.source call db v)

-- What a request with a valid token does to the rows of other profiles: nothing.
pub serve-Apart :
    (w : Wiring) (m : Moment) (header : Text) (req : Request) (s : State) (b : ScopeBinding)
    → authenticate w.folds_to_bearer w.registry header ≡ some b
    → IsValid s.db
    → Apart b.key.profile s.db (serve w m header req s).1.db
serve-Apart w m header req s b known v =
    let (call, e, own) = serve-Serves w m header req s in
    subst (Apart b.key.profile s.db) (sym e)
      (permitted-Apart w b call s.db v (subst (λ o. Permits o call) known own))

-- A scope of one profile sees nothing of what is done under another: whatever request was served with
-- a token of the other profile, each GET of this one is answered as if that request had not been
-- made. It is asked that the constraints of the tables held before.
pub serve-isolated :
    (w : Wiring) (m m' : Moment) (header header' : Text) (req : Request) (read : StoreRequest)
    (s : State) (b b' : ScopeBinding)
    → authenticate w.folds_to_bearer w.registry header ≡ some b
    → authenticate w.folds_to_bearer w.registry header' ≡ some b'
    → (b'.key.profile == b.key.profile) ≡ false
    → IsValid s.db
    → is_read read ≡ true
    → (serve w m' header' (stored read) (serve w m header req s).1).0
      ≡ (serve w m' header' (stored read) s).0
unfolding serve
serve-isolated w m m' header header' req read s b b' known known' other v h =
    rw (known', guarded)
      (require_store-Apart b.key.profile b'.key.profile other s.db (serve w m header req s).1.db
        (serve-Apart w m header req s b known v) v w m' s (serve w m header req s).1 refl refl read
        h)
