-- ===== src/Syncer/Disk.antt =====
-- The file system as internal/syncer/syncer.go uses it: `filepath.Join`, `os.ReadFile`,
-- `os.WriteFile`, `os.Rename` and `os.RemoveAll`. A path is the list of its components. A directory
-- stands as long as a file is in it.
pub mod Laws
use phantom_skills.Prelude.{
  Bool, true, false, ◌&&◌, not, Option, none, some, List, [], ◌∷◌, reverse, eqb, if◌then◌else◌,
  select,
}
use phantom_skills.Text.{Text, text_eq, is_empty}

abbrev pub FilePath : Type 0
FilePath = List Text

pub record File : Type 0 where
  pub path : FilePath
  pub content : Text

abbrev pub Disk : Type 0
Disk = List File

-- What can fail, and where it does: chosen by the environment.
pub data Call : Type 0 where
  reading : Call
  making_dir : Call
  writing : Call
  renaming : Call
  removing : Call

abbrev pub Faults : Type 0
Faults = Call → FilePath → Bool

unfoldable pub path_eq : FilePath → FilePath → Bool
unfolding text_eq
path_eq [] [] = true
path_eq [] (d ∷ q) = false
path_eq (c ∷ p) [] = false
path_eq (c ∷ p) (d ∷ q) = text_eq c d && path_eq p q

-- The directory itself, or something below it.
unfoldable pub under : FilePath → FilePath → Bool
unfolding text_eq
under [] q = true
under (c ∷ p) [] = false
under (c ∷ p) (d ∷ q) = text_eq c d && under p q

-- The components of a text between its slashes; `part` is the one begun, newest rune first.
unfoldable pub split_path : Text → Text → FilePath
split_path part [] = reverse part ∷ []
split_path part (c ∷ s) = elim (eqb c b'/') [
  | true ↦ reverse part ∷ split_path [] s
  | false ↦ split_path (c ∷ part) s
]

abbrev dot : Text
dot = b'.' ∷ []

abbrev dot_dot : Text
dot_dot = b'.' ∷ b'.' ∷ []

abbrev parent : FilePath → FilePath
parent [] = []
parent (c ∷ p) = p

-- One component, onto a directory whose last component is in front.
unfoldable pub enter : FilePath → Text → FilePath
unfolding text_eq
enter dir c =
    if is_empty c
    then dir
    else if text_eq c dot
    then dir
    else if text_eq c dot_dot
    then parent dir
    else c ∷ dir

unfoldable pub enter_all : FilePath → FilePath → FilePath
unfolding enter
enter_all dir [] = dir
enter_all dir (c ∷ cs) = enter_all (enter dir c) cs

-- `filepath.Join(dir, name)` for an absolute and clean `dir`
unfoldable pub join : FilePath → Text → FilePath
unfolding enter_all split_path
join dir name = reverse (enter_all (reverse dir) (split_path [] name))

abbrev pub is_at : FilePath → File → Bool
is_at p f = path_eq p f.path

unfoldable pub content_at : FilePath → Disk → Option Text
unfolding path_eq
content_at p [] = none
content_at p (f ∷ d) = if is_at p f then some f.content else content_at p d

unfoldable pub erase : FilePath → Disk → Disk
unfolding path_eq
erase p d = select (λ f. not (is_at p f)) d

unfoldable pub put : FilePath → Text → Disk → Disk
unfolding erase
put p s d = record { path = p; content = s } ∷ erase p d

unfoldable pub erase_tree : FilePath → Disk → Disk
unfolding under
erase_tree p d = select (λ f. not (under p f.path)) d

-- `os.ReadFile`: `os.IsNotExist` is told apart from the other errors.
pub data Read : Type 0 where
  missing : Read
  unreadable : Read
  contents : Text → Read

abbrev pub found : Option Text → Read
found none = missing
found (some s) = contents s

unfoldable pub read_file : Faults → FilePath → Disk → Read
unfolding content_at
read_file fails p d = elim (fails reading p) [ true ↦ unreadable | false ↦ found (content_at p d) ]
