-- ===== src/Nodesync/Exchange.antt =====
-- One node's pull from another, page by page.
use phantom_skills.Prelude.{
  ℕ, suc, ◌≡◌, refl, sym, ap, ◌∙◌, subst, String, Bool, true, false, ◌&&◌, ◌||◌, List, [], ◌∷◌,
  ◌++◌, ◌==◌, select, take, drop, take-drop, All, All-take, All-select, arith, inl, inr, Bool-cases,
  eq_iff,
}
use phantom_skills.Prelude.Keys.{Distinct, All-map, All-both}
use phantom_skills.Prelude.Order.{sort_by, IsSortedBy, IsOrder, sort_by-IsSortedBy, All-sort_by}
use phantom_skills.Prelude.Order.Keyset.{
  last_of, last_of-All, select-passes, select-select, select-sort_by, Distinct-sort_by,
  Distinct-select, Distinct-take, IsStrict, select-last_of,
}
use phantom_skills.Store.Tables.{Db}
use phantom_skills.Nodesync.{
  SyncedVersion, synced_rows, exported, by_ulid, export_all, export_versions, import_versions,
}
use phantom_skills.Nodesync.Copying.{Adds}
use phantom_skills.Nodesync.Merge.{import_again}
use phantom_skills.Nodesync.Merge.Arrived.{same_ulid, Agrees, Has, import_versions-Has}

-- What is asked of the collation of row_ulid: a strict total order.
pub record IsCollation (lt : String → String → Bool) : Type 0 where
  pub irrefl : (a : String) → lt a a ≡ false
  pub trans : (a b c : String) → lt a b ≡ true → lt b c ≡ true → lt a c ≡ true
  pub total : (a b : String) → (a == b) ≡ false → lt a b ≡ false → lt b a ≡ true

-- The cursor that a peer resumes from.
abbrev pub cursor_after : String → List SyncedVersion → String
cursor_after since [] = since
cursor_after since (v ∷ vs) = (last_of v vs).row_ulid

module _ (lt : String → String → Bool) (c : IsCollation lt) where
  abbrev earlier : SyncedVersion → SyncedVersion → Bool
  earlier v w = lt v.row_ulid w.row_ulid

  asym : (a b : String) → lt a b ≡ true → lt b a ≡ false
  asym a b h = elim (Bool-cases (lt b a)) [
    | inr e ↦ e
    | inl e ↦ absurd (ground (arith, c.trans a b a h e, c.irrefl a))
  ]

  earlier-IsStrict : IsStrict earlier
  earlier-IsStrict = record {
    irrefl = λ v. c.irrefl v.row_ulid;
    asym = λ v w h. asym v.row_ulid w.row_ulid h;
  }

  total_le : (a b : String) → (a == b || lt a b) ≡ false → (b == a || lt b a) ≡ true
  total_le a b h = ground (arith, c.total a b (ground (arith, h)) (ground (arith, h)))

  trans_le :
      (a b x : String)
      → (a == b || lt a b) ≡ true
      → (b == x || lt b x) ≡ true
      → (a == x || lt a x) ≡ true
  trans_le a b x h k = elim (Bool-cases (a == b)) [
    | inl e ↦ let same : a ≡ b = (eq_iff a b).0 e in rw same k
    | inr e ↦ elim (Bool-cases (b == x)) [
      | inl f ↦ let same : b ≡ x = (eq_iff b x).0 f in rw (← same) h
      | inr f ↦ ground (arith, c.trans a b x (ground (arith, h, e)) (ground (arith, k, f)))
    ]
  ]

  by_ulid-IsOrder : IsOrder (by_ulid lt)
  by_ulid-IsOrder = record {
    total = λ v w h. total_le v.row_ulid w.row_ulid h;
    trans = λ v w x h k. trans_le v.row_ulid w.row_ulid x.row_ulid h k;
  }

  All-earlier :
      (v : SyncedVersion) (vs : List SyncedVersion)
      → All (λ w. by_ulid lt v w ≡ true) vs
      → All (λ w. same_ulid v w ≡ false) vs
      → All (λ w. earlier v w ≡ true) vs
  All-earlier v [] a d = tt
  All-earlier v (w ∷ vs) a d = (ground (arith, a.0, d.0), All-earlier v vs a.1 d.1)

  sorted-strictly :
      (vs : List SyncedVersion)
      → IsSortedBy (by_ulid lt) vs
      → Distinct same_ulid vs
      → IsSortedBy earlier vs
  sorted-strictly [] s d = tt
  sorted-strictly (v ∷ vs) s d = (All-earlier v vs s.0 d.0, sorted-strictly vs s.1 d.1)

  eq_comm : (a b : String) → (a == b) ≡ (b == a)
  eq_comm a b = elim (Bool-cases (a == b)) [
    | inl e ↦ let same : a ≡ b = (eq_iff a b).0 e in rw same refl
    | inr e ↦ elim (Bool-cases (b == a)) [
      | inl f ↦
          let same : b ≡ a = (eq_iff b a).0 f in
          absurd (ground (arith, e, (eq_iff a b).1 (sym same)))
      | inr f ↦ rw (e, f) refl
    ]
  ]

  module _ (profile : String) (db : Db)
      (distinct : Distinct same_ulid (synced_rows db.skills db.versions))
      (stamped : All (λ v. (v.row_ulid == "") ≡ false) (synced_rows db.skills db.versions)) where
    export_all-Distinct : (since : String) → Distinct same_ulid (export_all lt profile since db)
    unfolding export_all
    export_all-Distinct since =
        let rows = synced_rows db.skills db.versions in
        Distinct-sort_by same_ulid (λ v w. eq_comm v.row_ulid w.row_ulid) (by_ulid lt)
          (select (exported lt profile since) rows)
          (Distinct-select same_ulid (exported lt profile since) rows distinct)

    export_all-sorted : (since : String) → IsSortedBy earlier (export_all lt profile since db)
    unfolding export_all
    export_all-sorted since =
        let found = select (exported lt profile since) (synced_rows db.skills db.versions) in
        sorted-strictly (sort_by (by_ulid lt) found)
          (sort_by-IsSortedBy (by_ulid lt) by_ulid-IsOrder found) (export_all-Distinct since)

    -- An exported row passes the filter and has an identity.
    abbrev Sent : String → SyncedVersion → Type 0
    Sent since v = (exported lt profile since v ≡ true) × ((v.row_ulid == "") ≡ false)

    export_all-Sent : (since : String) → All (Sent since) (export_all lt profile since db)
    unfolding export_all
    export_all-Sent since =
        let rows = synced_rows db.skills db.versions in
        All-sort_by (by_ulid lt) (Sent since) (select (exported lt profile since) rows) (
          All-both (λ v. exported lt profile since v ≡ true) (λ v. (v.row_ulid == "") ≡ false)
            (select (exported lt profile since) rows)
            (select-passes (exported lt profile since) rows)
            (All-select (λ v. (v.row_ulid == "") ≡ false) (exported lt profile since) rows stamped))

    exported_later :
        (since : String) (m v : SyncedVersion)
        → Sent since m
        → exported lt profile m.row_ulid v ≡ (earlier m v && exported lt profile since v)
    exported_later since m v sent = elim (Bool-cases (earlier m v)) [
      | inl e ↦
          let through : lt since m.row_ulid ≡ true → lt since v.row_ulid ≡ true =
            λ h. c.trans since m.row_ulid v.row_ulid h e in
          elim (Bool-cases (lt since m.row_ulid)) [
            | inl f ↦ ground (arith, sent.0, sent.1, e, through f)
            | inr f ↦ ground (arith, sent.0, sent.1, e, f)
          ]
      | inr e ↦ ground (arith, sent.0, sent.1, e)
    ]

    export_next :
        (since : String) (n : ℕ) (x : SyncedVersion) (rest : List SyncedVersion)
        → export_all lt profile since db ≡ x ∷ rest
        → export_all lt profile (last_of x (take n rest)).row_ulid db ≡ drop n rest
    unfolding export_all
    export_next since n x rest e =
        let rows = synced_rows db.skills db.versions in
        let m : SyncedVersion = last_of x (take n rest) in
        let sent : All (Sent since) (x ∷ rest) =
          subst (All (Sent since)) e (export_all-Sent since) in
        let strictly : IsSortedBy earlier (x ∷ rest) =
          subst (IsSortedBy earlier) e (export_all-sorted since) in
        let m_sent : Sent since m =
          last_of-All (Sent since) x (take n rest) sent.0 (All-take (Sent since) n rest sent.1) in
        ap (sort_by (by_ulid lt)) (
          select-select (earlier m) (exported lt profile since) (exported lt profile m.row_ulid)
            rows (λ v. exported_later since m v m_sent))
        ∙ sym (
            select-sort_by (by_ulid lt) by_ulid-IsOrder (earlier m)
              (select (exported lt profile since) rows))
        ∙ ap (select (earlier m)) e
        ∙ select-last_of earlier earlier-IsStrict n x rest strictly

    left_behind :
        (since : String) (n : ℕ) (vs : List SyncedVersion)
        → export_all lt profile since db ≡ vs
        → export_all lt profile (cursor_after since (take (suc n) vs)) db ≡ drop (suc n) vs
    left_behind since n [] e = e
    left_behind since n (x ∷ rest) e = export_next since n x rest e

    -- A page of an export and what is exported behind its last identity are together what is exported
    -- behind the first cursor, nothing twice and nothing left out. A node that imports the page keeps
    -- its versions and adds, behind them, as many rows as it reports, each of them a version of the
    -- page in the skill of its profile and name, with its hash, frontmatter, body, author, source and
    -- identity. Afterwards the node's skill of each version of the page has a version with its hash.
    -- It is asked that the collation of row_ulid is a strict total order, that no two rows of the
    -- sender have the same identity and none an empty one, that a row of the receiver which bears an
    -- identity of the page is of its skill and has its hash, and that the limit is not 0.
    pub exchange_page :
        (since : String) (n now : ℕ) (peer : Db)
        → All (Agrees peer) (export_versions lt profile since (suc n) db)
        → (export_versions lt profile since (suc n) db
              ++ export_all lt profile
                  (cursor_after since (export_versions lt profile since (suc n) db))
                  db
            ≡ export_all lt profile since db)
          × Adds
              (export_versions lt profile since (suc n) db)
              peer
              (import_versions now (export_versions lt profile since (suc n) db) peer)
          × All
              (Has (import_versions now (export_versions lt profile since (suc n) db) peer).1)
              (export_versions lt profile since (suc n) db)
    unfolding export_versions
    exchange_page since n now peer agrees =
        let all : List SyncedVersion = export_all lt profile since db in
        let page : List SyncedVersion = take (suc n) all in
        let filled =
          All-map (Sent since) page (λ v sent. sent.1)
            (All-take (Sent since) (suc n) all (export_all-Sent since)) in
        (
          ap (λ vs. page ++ vs) (left_behind since n all refl) ∙ take-drop (suc n) all,
          (import_again now now page [] peer).0,
          import_versions-Has now page peer
              (Distinct-take same_ulid (suc n) all (export_all-Distinct since)) filled agrees,
        )
