-- ===== src/Syncer/Run.antt =====
-- `Sync`, `loadCursor` and `saveCursor` of internal/syncer/syncer.go. The daemon is a function of
-- the number of the request and its cursor, with `none` for a request that fails. The loop runs on
-- fuel, and gives `none` when that is spent.
use phantom_skills.Prelude.{
  ℕ, zero, suc, String, Bool, true, false, ◌||◌, Option, none, some, List, [], ◌∷◌, ◌++◌,
  if◌then◌else◌, codes,
}
use phantom_skills.Text.{Text, text_eq, trim_space, is_empty}
use phantom_skills.Syncer.Disk.{Disk, making_dir, missing, unreadable, contents, read_file}
use phantom_skills.Syncer.Steps.{
  SyncSkill, Syncer, World, Outcome, ok, err, mkdir_failed, request_failed, and_then, write_atomic,
  materialize, remove,
}

-- `client.SyncResponse`
pub record SyncResponse : Type 0 where
  pub skills : List SyncSkill
  pub deletes : List String
  pub cursor : Text

abbrev pub Daemon : Type 0
Daemon = ℕ → Text → Option SyncResponse

pub record Options : Type 0 where
  pub dry_run : Bool
  pub reset : Bool

unfoldable pub materialize_all : Syncer → Bool → List SyncSkill → World → Outcome
unfolding materialize
materialize_all s dry_run [] w = ok w
materialize_all s dry_run (sk ∷ sks) w =
    and_then (materialize s sk dry_run w) (λ v. materialize_all s dry_run sks v)

unfoldable pub remove_all : Syncer → Bool → List String → World → Outcome
unfolding remove
remove_all s dry_run [] w = ok w
remove_all s dry_run (n ∷ ns) w = and_then (remove s n dry_run w) (λ v. remove_all s dry_run ns v)

-- One page of the feed.
unfoldable pub apply_page : Syncer → Bool → SyncResponse → World → Outcome
unfolding materialize_all remove_all
apply_page s dry_run resp w =
    and_then (materialize_all s dry_run resp.skills w) (λ v. remove_all s dry_run resp.deletes v)

abbrev pub cursor_file : Text
cursor_file = codes "sync.cursor"

unfoldable pub load_cursor : Syncer → Disk → Text
unfolding read_file trim_space
load_cursor s d = elim (read_file s.fails (s.state_dir ++ cursor_file ∷ []) d) [
  | missing ↦ []
  | unreadable ↦ []
  | contents content ↦ trim_space content
]

unfoldable pub save_cursor : Syncer → Text → World → Outcome
unfolding write_atomic
save_cursor s cursor w = elim (s.fails making_dir s.state_dir) [
  | true ↦ err (mkdir_failed s.state_dir) w
  | false ↦ write_atomic s.fails s.state_dir cursor_file (cursor ++ 10 ∷ []) w
]

-- `resp.Cursor == "" || resp.Cursor == cursor`
unfoldable pub caught_up : Text → SyncResponse → Bool
unfolding text_eq
caught_up cursor resp = is_empty resp.cursor || text_eq resp.cursor cursor

abbrev pub finish : Syncer → Bool → Text → World → Outcome
finish s dry_run cursor w =
    let v : World = record w { report = record w.report { cursor = cursor } } in
    if dry_run then ok v else save_cursor s cursor v

unfoldable pub sync_loop : ℕ → Syncer → Daemon → Bool → ℕ → Text → World → Option Outcome
unfolding apply_page caught_up save_cursor
sync_loop zero s daemon dry_run n cursor w = none
sync_loop (suc fuel) s daemon dry_run n cursor w = elim (daemon n cursor) [
  | none ↦ some (err request_failed w)
  | some resp ↦ elim (apply_page s dry_run resp w) [
    | err f v ↦ some (err f v)
    | ok v ↦ elim (caught_up cursor resp) [
      | true ↦ some (finish s dry_run cursor v)
      | false ↦ sync_loop fuel s daemon dry_run (suc n) resp.cursor v
    ]
  ]
]

unfoldable pub sync : ℕ → Syncer → Daemon → Options → Disk → Option Outcome
unfolding sync_loop load_cursor
sync fuel s daemon opts d =
    let cursor : Text = if opts.reset then [] else load_cursor s d in
    sync_loop fuel s daemon opts.dry_run 0 cursor (record {
      disk = d;
      report = record {
        written = 0;
        up_to_date = 0;
        deleted = 0;
        skipped_unmanaged = 0;
        cursor = [];
        changes = [];
      };
    })
