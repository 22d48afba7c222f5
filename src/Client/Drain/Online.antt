-- ===== src/Client/Drain/Online.antt =====
-- What a run of `DrainOnce` leaves in the connectivity tracker, as its snapshot shows it.
use phantom_skills.Prelude.{
  ℕ, suc, ◌+◌, ◌≤◌, ◌<◌, ◌≡◌, ◌≢◌, refl, ap, String, Bool, true, false, Option, none, some, List,
  [], ◌∷◌, length, arith, inl, inr, Option-cases,
}
use phantom_skills.Wqueue.{Item, delete}
use phantom_skills.Client.{
  Agent, Daemon, Connectivity, replay, note_success, note_failure, snapshot, drain_items,
  drain_once,
}
use phantom_skills.Client.Drain.{sent, stuck, read}

-- The last event of a tracker was a success, and its last failure was at `t`.
record Up (t : ℕ) (c : Connectivity) : Type 0 where
  since : c.last_failure ≤ c.last_success
  time : c.last_failure ≡ t
  quiet : c.last_err ≡ ""

-- The last event of a tracker was a failure at `t` with the error `e`.
record Down (t : ℕ) (e : String) (c : Connectivity) : Type 0 where
  since : c.last_success < c.last_failure
  time : c.last_failure ≡ t
  error : c.last_err ≡ e

module _ (sat : ℕ) (answer : Item → Option String) (now : ℕ → ℕ)
    (ticks : (i : ℕ) → now i < now (i + 1)) where
  succeeded : ℕ → Item → Agent → Agent
  succeeded i it a = record { queue = delete it.id a.queue; conn = note_success (now i) a.conn }

  drain_items-Up :
      (t i : ℕ) (items : List Item) (n : ℕ) (a : Agent)
      → stuck answer items ≡ none
      → Up t a.conn
      → a.conn.last_success < now i
      → Up t (drain_items sat answer now i items n a).1.conn
  unfolding drain_items succeeded note_success
  drain_items-Up t i [] n a h up before = up
  drain_items-Up t i (it ∷ rest) n a h up before = elim (Option-cases (answer it)) [
    | inl e ↦
        rw (e, drain_items)
          (drain_items-Up t (i + 1) rest (n + 1) (succeeded i it a) (rw (e, stuck) at h)
            (record { since = omega (arith, up.since); time = up.time; quiet = refl }) (ticks i))
    | inr (x, e) ↦ let wrong : some (it, x) ≡ none = rw (e, stuck) at h in absurd (ground arith)
  ]

  drain_items-Down :
      (i : ℕ) (items : List Item) (n : ℕ) (a : Agent) (bad : Item) (x : String)
      → stuck answer items ≡ some (bad, x)
      → a.conn.last_success < now i
      → Down
          (now (i + length (sent answer items)))
          x
          (drain_items sat answer now i items n a).1.conn
  unfolding drain_items succeeded note_success note_failure
  drain_items-Down i [] n a bad x h before = absurd (ground arith)
  drain_items-Down i (it ∷ rest) n a bad x h before = elim (Option-cases (answer it)) [
    | inl e ↦
        let shift : i + suc (length (sent answer rest)) ≡ (i + 1) + length (sent answer rest) =
          omega arith in
        rw (e, drain_items, sent)
          (rw shift (
            drain_items-Down (i + 1) rest (n + 1) (succeeded i it a) bad x (rw (e, stuck) at h)
              (ticks i)))
    | inr (y, e) ↦
        let same : some (it, y) ≡ some (bad, x) = rw (e, stuck) at h in
        rw (e, drain_items, sent)
          (record { since = before; time = ap now (omega arith); error = ground arith })
  ]

  batch-Up :
      (items : List Item) (a : Agent)
      → items ≢ []
      → stuck answer items ≡ none
      → a.conn.last_success < now 1
      → a.conn.last_failure < now 1
      → Up a.conn.last_failure (drain_items sat answer now 1 items 0 a).1.conn
  unfolding drain_items succeeded note_success
  batch-Up [] a filled h success failure = absurd (filled refl)
  batch-Up (it ∷ rest) a filled h success failure = elim (Option-cases (answer it)) [
    | inl e ↦
        rw (e, drain_items)
          (drain_items-Up a.conn.last_failure 2 rest 1 (succeeded 1 it a) (rw (e, stuck) at h)
            (record { since = omega arith; time = refl; quiet = refl }) (ticks 1))
    | inr (x, e) ↦ let wrong : some (it, x) ≡ none = rw (e, stuck) at h in absurd (ground arith)
  ]

snapshot-Up : (t : ℕ) (c : Connectivity) → Up t c → (snapshot c).online ≡ true
unfolding snapshot
snapshot-Up t c up = let quiet = up.since in ground arith

snapshot-Down : (t : ℕ) (e : String) (c : Connectivity) → Down t e c → (snapshot c).online ≡ false
unfolding snapshot
snapshot-Down t e c down = let broken = down.since in ground arith

-- What the snapshot shows after a run, by the post that stopped it.
abbrev pub is_online : Option (Item × String) → Bool
is_online none = true
is_online (some _) = false

abbrev pub error_of : Option (Item × String) → String
error_of none = ""
error_of (some (it, e)) = e

abbrev pub failed_at : ℕ → ℕ → Option (Item × String) → ℕ
failed_at before t none = before
failed_at before t (some _) = t

module _ (sat : ℕ) (post : Daemon) (now : ℕ → ℕ) (a : Agent) where
  -- Let the clock's readings increase strictly, and the tracker have no event from the time of the
  -- first reply or later. A run that read a row leaves a snapshot that is online exactly if no post
  -- failed. The error it shows is that of the post that failed, or none; the time of the last failure
  -- is that of this post, or as before.
  pub drain_once-online :
      ((i : ℕ) → now i < now (i + 1))
      → a.conn.last_success < now 1
      → a.conn.last_failure < now 1
      → read sat post now a ≢ []
      → ((snapshot (drain_once sat post now a).1.conn).online
          ≡ is_online (stuck (replay post) (read sat post now a)))
        × ((snapshot (drain_once sat post now a).1.conn).last_error
            ≡ error_of (stuck (replay post) (read sat post now a)))
        × ((snapshot (drain_once sat post now a).1.conn).last_failure_at
            ≡ failed_at a.conn.last_failure
                (now (1 + length (sent (replay post) (read sat post now a))))
                (stuck (replay post) (read sat post now a)))
  unfolding drain_once snapshot
  drain_once-online ticks success failure filled =
      let items = read sat post now a in
      elim (Option-cases (stuck (replay post) items)) [
        | inl e ↦
            let up = batch-Up sat (replay post) now ticks items a filled e success failure in
            rw e (snapshot-Up _ _ up, up.quiet, up.time)
        | inr ((it, x), e) ↦
            let down = drain_items-Down sat (replay post) now ticks 1 items 0 a it x e success in
            rw e (snapshot-Down _ _ _ down, down.error, down.time)
      ]
