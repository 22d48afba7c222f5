-- ===== src/Server/Feed/Paging.antt =====
-- The pages of the change feed: none of its rows is skipped or sent twice.
use phantom_skills.Prelude.{
  ◌-◌, min, ℕ, zero, suc, ◌<◌, ◌≡◌, refl, ap, sym, ◌∙◌, inl, inr, String, Bool, true, false, ◌&&◌,
  List, [], ◌∷◌, ◌++◌, map, select, take, drop, length, take-drop, length-map, length-take, All,
  All-take, Bool-cases, Option-cases, arith, ℤ, pos, negsuc,
}
use mathlib.Core.List.{map-append}
use phantom_skills.Prelude.Keys.{Distinct}
use phantom_skills.Prelude.Order.{sort_by, IsSortedBy, IsOrder, sort_by-IsSortedBy, All-sort_by}
use phantom_skills.Prelude.Order.Keyset.{
  last_of, last_of-All, select-passes, select-select, select-sort_by, Distinct-sort_by,
  Distinct-select, IsStrict, select-last_of,
}
use phantom_skills.Store.Tables.{Skill, Db}
use phantom_skills.Store.Queries.{
  SyncRow, current_version, page_size, after, by_update, sync_row, changed, sync_feed,
}
use phantom_skills.Store.Valid.{same_skill_id}
use phantom_skills.Server.Cursor.{Position}
use phantom_skills.Server.Feed.{row_position, last_position, page_rows}

-- Before in the order of the feed.
abbrev pub earlier : Skill → Skill → Bool
earlier a b = after (pos a.updated_at) (pos a.id) b.updated_at b.id

by_update-IsOrder : IsOrder by_update
by_update-IsOrder = record { total = λ x y h. ground arith; trans = λ x y z h k. ground arith }

earlier-IsStrict : IsStrict earlier
earlier-IsStrict = record { irrefl = λ x. ground arith; asym = λ x y h. ground arith }

-- What the feed still has behind a position.
unfoldable pub pending : String → Db → Position → List Skill
pending profile db p = sort_by by_update (select (changed profile p.ts p.id) db.skills)

All-earlier :
    (x : Skill) (ys : List Skill)
    → All (λ y. by_update x y ≡ true) ys
    → All (λ y. same_skill_id x y ≡ false) ys
    → All (λ y. earlier x y ≡ true) ys
All-earlier x [] a d = tt
All-earlier x (y ∷ ys) a d = (ground arith, All-earlier x ys a.1 d.1)

sorted-strictly :
    (xs : List Skill) → IsSortedBy by_update xs → Distinct same_skill_id xs → IsSortedBy earlier xs
sorted-strictly [] s d = tt
sorted-strictly (x ∷ xs) s d = (All-earlier x xs s.0 d.0, sorted-strictly xs s.1 d.1)

same_skill_id_comm : (x y : Skill) → same_skill_id x y ≡ same_skill_id y x
same_skill_id_comm x y = ground arith

abbrev pub skill_position : Skill → Position
skill_position s = record { ts = pos s.updated_at; id = pos s.id }

-- Transitivity, where the first key is a cursor's.
after-earlier :
    (ts id : ℤ) (m y : Skill)
    → after ts id m.updated_at m.id ≡ true
    → earlier m y ≡ true
    → after ts id y.updated_at y.id ≡ true
after-earlier (pos t) (pos i) m y h k = ground arith
after-earlier (pos t) (negsuc i) m y h k = ground arith
after-earlier (negsuc t) i m y h k = refl

module _ (profile : String) (db : Db) (distinct : Distinct same_skill_id db.skills) where
  pending-sorted : (p : Position) → IsSortedBy earlier (pending profile db p)
  unfolding pending
  pending-sorted p =
      let found : List Skill = select (changed profile p.ts p.id) db.skills in
      sorted-strictly (sort_by by_update found)
        (sort_by-IsSortedBy by_update by_update-IsOrder found)
        (Distinct-sort_by same_skill_id same_skill_id_comm by_update found
          (Distinct-select same_skill_id (changed profile p.ts p.id) db.skills distinct))

  pending-changed :
      (p : Position) → All (λ s. changed profile p.ts p.id s ≡ true) (pending profile db p)
  unfolding pending
  pending-changed p =
      All-sort_by by_update (λ s. changed profile p.ts p.id s ≡ true)
        (select (changed profile p.ts p.id) db.skills)
        (select-passes (changed profile p.ts p.id) db.skills)

  changed_later :
      (p : Position) (m y : Skill)
      → changed profile p.ts p.id m ≡ true
      → changed profile (pos m.updated_at) (pos m.id) y
        ≡ (earlier m y && changed profile p.ts p.id y)
  changed_later p m y h =
      let m_after : after p.ts p.id m.updated_at m.id ≡ true = ground arith in
      elim (Bool-cases (earlier m y)) [
        | inl k ↦
            let y_after : after p.ts p.id y.updated_at y.id ≡ true =
              after-earlier p.ts p.id m y m_after k in
            ground arith
        | inr k ↦ ground arith
      ]

  pending-next :
      (p : Position) (n : ℕ) (x : Skill) (rest : List Skill)
      → pending profile db p ≡ x ∷ rest
      → pending profile db (skill_position (last_of x (take n rest))) ≡ drop n rest
  unfolding pending
  pending-next p n x rest e =
      let m : Skill = last_of x (take n rest) in
      let all : All (λ s. changed profile p.ts p.id s ≡ true) (x ∷ rest) =
        rw e at (pending-changed p) in
      let strictly : IsSortedBy earlier (x ∷ rest) = rw e at (pending-sorted p) in
      let m_changed : changed profile p.ts p.id m ≡ true =
        last_of-All (λ s. changed profile p.ts p.id s ≡ true) x (take n rest) all.0
          (All-take (λ s. changed profile p.ts p.id s ≡ true) n rest all.1) in
      ap (sort_by by_update) (
        select-select (earlier m) (changed profile p.ts p.id)
          (changed profile (pos m.updated_at) (pos m.id)) db.skills
          (λ y. changed_later p m y m_changed))
      ∙ sym (
          select-sort_by by_update by_update-IsOrder (earlier m)
            (select (changed profile p.ts p.id) db.skills))
      ∙ ap (select (earlier m)) e
      ∙ select-last_of earlier earlier-IsStrict n x rest strictly

pub row_position-sync_row : (db : Db) (s : Skill) → row_position (sync_row db s) ≡ skill_position s
unfolding sync_row
row_position-sync_row db s = elim (Option-cases (current_version db s)) [
  | inl e ↦ rw (e, sync_row) refl
  | inr (v, e) ↦ rw (e, sync_row) refl
]

last_position-map :
    (db : Db) (p : Position) (x : Skill) (xs : List Skill)
    → last_position p (map (sync_row db) (x ∷ xs)) ≡ skill_position (last_of x xs)
last_position-map db p x [] = row_position-sync_row db x
last_position-map db p x (y ∷ ys) = last_position-map db (row_position (sync_row db x)) y ys

pub page_size_pos : (z : ℤ) → 0 < page_size z
unfolding page_size
page_size_pos (pos zero) = omega arith
page_size_pos (pos (suc n)) = ground arith
page_size_pos (negsuc n) = omega arith

-- The rows of the feed behind a position, all at once.
unfoldable pub feed_rows : String → Db → Position → List SyncRow
unfolding pending
feed_rows profile db p = map (sync_row db) (pending profile db p)

module _ (profile : String) (page : ℤ) (db : Db) (distinct : Distinct same_skill_id db.skills) where
  pub page_rows-pending :
      (p : Position)
      → page_rows profile page db p
        ≡ map (sync_row db) (take (page_size page) (pending profile db p))
  unfolding sync_feed pending
  page_rows-pending p = refl

  -- What is left behind the first `n + 1` pending rows.
  left_behind :
      (p : Position) (n : ℕ) (xs : List Skill)
      → pending profile db p ≡ xs
      → pending profile db (last_position p (map (sync_row db) (take (suc n) xs))) ≡ drop (suc n) xs
  left_behind p n [] e = e
  left_behind p n (x ∷ xs) e =
      ap (pending profile db) (last_position-map db p x (take n xs))
      ∙ pending-next profile db distinct p n x xs e

  page_rows-take :
      (p : Position) (n : ℕ)
      → page_size page ≡ suc n
      → page_rows profile page db p ≡ map (sync_row db) (take (suc n) (pending profile db p))
  page_rows-take p n sized =
      page_rows-pending p ∙ ap (λ k. map (sync_row db) (take k (pending profile db p))) sized

  take_and_left :
      (p : Position) (n : ℕ)
      → map (sync_row db) (take (suc n) (pending profile db p))
          ++ feed_rows profile db
              (last_position p (map (sync_row db) (take (suc n) (pending profile db p))))
        ≡ feed_rows profile db p
  unfolding feed_rows
  take_and_left p n =
      let xs : List Skill = pending profile db p in
      ap (λ ys. map (sync_row db) (take (suc n) xs) ++ map (sync_row db) ys)
        (left_behind p n xs refl)
      ∙ sym (map-append (sync_row db) (take (suc n) xs) (drop (suc n) xs))
      ∙ ap (map (sync_row db)) (take-drop (suc n) xs)

  -- A page of the feed holds the rows behind the cursor, as many as there are up to the page's size, and
  -- behind the cursor that it ends at are exactly the others: no row is skipped or sent twice, whatever
  -- rows share a time. It is asked that no two skills have the same id.
  pub feed_page :
      (p : Position)
      → (page_rows profile page db p
            ++ feed_rows profile db (last_position p (page_rows profile page db p))
          ≡ feed_rows profile db p)
        × (length (page_rows profile page db p)
            ≡ min (page_size page) (length (feed_rows profile db p)))
  unfolding feed_rows
  feed_page p =
      let n : ℕ = page_size page - 1 in
      let sized : page_size page ≡ suc n = omega (arith, page_size_pos page) in
      let rows = page_rows-take p n sized in
      (
        ap (λ rs. rs ++ feed_rows profile db (last_position p rs)) rows ∙ take_and_left p n,
        ap length rows
            ∙ omega (
              arith,
              sized,
              length-map (sync_row db) (take (suc n) (pending profile db p)),
              length-take (suc n) (pending profile db p),
              length-map (sync_row db) (pending profile db p),
            ),
      )
