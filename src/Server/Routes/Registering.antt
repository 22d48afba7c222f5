-- ===== src/Server/Routes/Registering.antt =====
-- Registering a skill over HTTP, reading it back, and registering it again.
use phantom_skills.Prelude.{
  ◌≡◌, refl, sym, ap, ◌∙◌, subst, String, Bool, true, false, some, ◌==◌, arith,
}
use phantom_skills.Text.{Text}
use phantom_skills.Store.Tables.{Version, Db, Result, ok, err}
use phantom_skills.Store.Register.{RegisterInput, register_version, canonical_sha}
use phantom_skills.Store.Queries.{SkillView}
use phantom_skills.Store.Valid.{IsValid}
use phantom_skills.Store.Versions.{register_version_idem, get_skill-register}
use phantom_skills.Scopes.{ScopeBinding, authenticate}
use phantom_skills.Server.Api.{
  RegisterReq, StoreRequest, stored, get_one_skill, put_skill, skill_detail, registered, write_json,
  Response, State, Wiring, Moment,
}
use phantom_skills.Server.Handlers.{
  register_input, registered_reply, handle_register, handle_get_skill, skill_reply, with_db,
}
use phantom_skills.Server.Routes.{with_store, require_store, guarded, serve}

created_by_201 :
    (name : String) (r : Result (Version × Bool) × Db)
    → (registered_reply name r.0).status ≡ 201
    → (v : Version) × (r ≡ (ok (v, true), r.1))
created_by_201 name (ok (v, true), db) h = (v, refl)
created_by_201 name (ok (v, false), db) h = absurd (omega (arith, h))
created_by_201 name (err e, db) h = absurd (omega (arith, h))

module _ (w : Wiring) (header : Text) (b : ScopeBinding)
    (known : authenticate w.folds_to_bearer w.registry header ≡ some b)
    (wired : w.has_store ≡ true) where
  -- What a request of that scope comes to.
  served :
      (m : Moment) (req : StoreRequest) (s : State)
      → serve w m header (stored req) s ≡ with_store w m b.key.profile req s
  unfolding serve require_store
  served m req s = rw (known, guarded) (rw (wired, require_store) refl)

  put_reply :
      (m : Moment) (name : String) (req : RegisterReq) (s : State)
      → (name == "") ≡ false
      → with_store w m b.key.profile (put_skill name (some req)) s
        ≡ with_db s
            (registered_reply name
              (register_version w.codecs m.stamp (register_input b.key.profile name req) s.db).0)
            (register_version w.codecs m.stamp (register_input b.key.profile name req) s.db).1
  unfolding with_store handle_register
  put_reply m name req s h = rw (h, h) refl

  module _ (m later : Moment) (name : String) (req : RegisterReq) (s : State)
      (named : (name == "") ≡ false) (valid : IsValid s.db) where
    abbrev put : Moment → State → Response × State
    put n t = serve w n header (stored (put_skill name (some req))) t

    put-register :
        (n : Moment) (t : State)
        → put n t
          ≡ with_db t
              (registered_reply name
                (register_version w.codecs n.stamp (register_input b.key.profile name req) t.db).0)
              (register_version w.codecs n.stamp (register_input b.key.profile name req) t.db).1
    put-register n t = served n (put_skill name (some req)) t ∙ put_reply n name req t named

    abbrev input : RegisterInput
    input = register_input b.key.profile name req

    -- What is shown and answered once that version has been stored.
    stored_version :
        (v : Version) (db : Db)
        → register_version w.codecs m.stamp input s.db ≡ (ok (v, true), db)
        → (sk : SkillView) × ((serve w later header
              (stored (get_one_skill name))
              (record s { db = db })).0
            ≡ write_json 200 (skill_detail sk (some v)))
          × (v.body ≡ req.body)
          × (v.sha ≡ canonical_sha w.codecs req.frontmatter req.body)
          × ((put later (record s { db = db })).0
              ≡ write_json 200 (registered name v.version v.sha false))
          × ((put later (record s { db = db })).1.db.versions ≡ db.versions)
    unfolding with_store handle_get_skill
    stored_version v db e =
        let (sk, shown, body, sha, number) =
          get_skill-register w.codecs m.stamp later.stamp input s.db db v true e refl valid in
        let (same, kept) =
          register_version_idem w.codecs m.stamp later.stamp input s.db db v true e in
        let t : State = record s { db = db } in
        let again = put-register later t in
        (
          _,
          ap (λ (x : Response × State). x.0) (served later (get_one_skill name) t)
              ∙ ap skill_reply shown,
          body,
          sha,
          ap (λ (x : Response × State). x.0) again ∙ ap (registered_reply name) same,
          ap (λ (x : Response × State). x.1.db.versions) again ∙ kept,
        )

    -- A PUT that is answered with 201 has stored the version that a GET by the same scope then shows as
    -- the skill's current one, with the body of the request and the hash of its content; and the same
    -- PUT once more, at whatever time, is answered with 200 and the same version, and adds none.
    pub put-get :
        (put m s).0.status ≡ 201
        → (v : Version) × (sk : SkillView) × ((put m s).0
            ≡ write_json 201 (registered name v.version v.sha true))
          × ((serve w later header (stored (get_one_skill name)) (put m s).1).0
              ≡ write_json 200 (skill_detail sk (some v)))
          × (v.body ≡ req.body)
          × (v.sha ≡ canonical_sha w.codecs req.frontmatter req.body)
          × ((put later (put m s).1).0 ≡ write_json 200 (registered name v.version v.sha false))
          × ((put later (put m s).1).1.db.versions ≡ (put m s).1.db.versions)
    put-get h =
        let r : Result (Version × Bool) × Db = register_version w.codecs m.stamp input s.db in
        let first_put = put-register m s in
        let (v, e) =
          created_by_201 name r (subst (λ (x : Response × State). x.0.status ≡ 201) first_put h) in
        let done : put m s
            ≡ (write_json 201 (registered name v.version v.sha true), record s { db = r.1 }) =
          first_put
          ∙ ap (λ (x : Result (Version × Bool) × Db). with_db s (registered_reply name x.0) x.1)
              e in
        let (sk, shown, body, sha, again, kept) = stored_version v r.1 e in
        (
          v,
          sk,
          ap (λ (x : Response × State). x.0) done,
          subst
              (λ (x : Response × State).
                (serve w later header (stored (get_one_skill name)) x.1).0
                ≡ write_json 200 (skill_detail sk (some v)))
              (sym done) shown,
          body,
          sha,
          subst
              (λ (x : Response × State).
                (put later x.1).0 ≡ write_json 200 (registered name v.version v.sha false))
              (sym done) again,
          subst (λ (x : Response × State). (put later x.1).1.db.versions ≡ x.1.db.versions)
              (sym done) kept,
        )
