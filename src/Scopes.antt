-- ===== src/Scopes.antt =====
-- Scopes and bearer tokens: internal/server/registry.go, internal/server/auth.go, and
-- `LoadScopeFiles` and `MergedDefaults` of internal/server/config.go. What reading and decoding a
-- TOML file gives is data of the scope's directory. The two maps of a Registry are lists of bindings.
pub mod Bearer
use phantom_skills.Prelude.{
  ℕ, zero, suc, String, Bool, true, false, ◌&&◌, Option, none, some, List, [], ◌∷◌, ◌++◌, first,
  select, not, length, eqb, ◌==◌, if◌then◌else◌, ℤ, pos, negsuc,
}
use phantom_skills.Text.{Text, trim_space, text_eq, is_empty}

pub record ScopeKey : Type 0 where
  pub profile : String
  pub skillset : String

pub record ScopeOverrides : Type 0 where
  pub skillset : String
  pub sync_change_feed_page : ℤ

pub record ScopeAuth : Type 0 where
  pub bearer_token : Text
  pub description : String

pub record ScopeDefaults : Type 0 where
  pub sync_change_feed_page : ℤ

pub record ScopeBinding : Type 0 where
  pub key : ScopeKey
  pub auth : ScopeAuth
  pub defaults : ScopeDefaults

pub record Registry : Type 0 where
  pub by_token : List ScopeBinding
  pub by_scope : List ScopeBinding

pub data TomlFile (A : Type 0) : Type 0 where
  absent : TomlFile A
  unreadable : TomlFile A
  malformed : TomlFile A
  decoded : A → TomlFile A

-- An entry of the directory `profiles`.
pub record Entry : Type 0 where
  pub name : String
  pub is_dir : Bool
  pub config : TomlFile ScopeOverrides
  pub auth : TomlFile ScopeAuth

abbrev overrides_of : TomlFile ScopeOverrides → Option ScopeOverrides
overrides_of absent = some (record { skillset = ""; sync_change_feed_page = pos zero })
overrides_of unreadable = none
overrides_of malformed = none
overrides_of (decoded o) = some o

abbrev auth_of : TomlFile ScopeAuth → Option ScopeAuth
auth_of (decoded a) = if is_empty (trim_space a.bearer_token) then none else some a
auth_of _ = none

abbrev both : Option ScopeOverrides → Option ScopeAuth → Option (ScopeOverrides × ScopeAuth)
both (some o) (some a) = some (o, a)
both _ _ = none

unfoldable pub load_scope_files : Entry → Option (ScopeOverrides × ScopeAuth)
unfolding trim_space
load_scope_files e = both (overrides_of e.config) (auth_of e.auth)

abbrev pub merged_defaults : ScopeDefaults → ScopeOverrides → ScopeDefaults
merged_defaults global o = elim o.sync_change_feed_page [
  | pos n ↦ elim n [ zero ↦ global | suc k ↦ record { sync_change_feed_page = pos (suc k) } ]
  | negsuc n ↦ record { sync_change_feed_page = negsuc n }
]

unfoldable pub binding_of : ScopeDefaults → Entry → ScopeOverrides → ScopeAuth → ScopeBinding
binding_of defaults e o a = record {
  key = record { profile = e.name; skillset = if o.skillset == "" then "default" else o.skillset };
  auth = a;
  defaults = merged_defaults defaults o;
}

abbrev pub has_token : Text → ScopeBinding → Bool
has_token t b = text_eq b.auth.bearer_token t

-- `byScope[key] = …` takes the place of an entry of the same key.
abbrev pub same_key : ScopeKey → ScopeBinding → Bool
same_key k b = b.key.profile == k.profile && b.key.skillset == k.skillset

abbrev pub add : ScopeBinding → Registry → Registry
add b r = record {
  by_token = r.by_token ++ b ∷ [];
  by_scope = select (λ c. not (same_key b.key c)) r.by_scope ++ b ∷ [];
}

abbrev pub add_new : ScopeBinding → Registry → Option ScopeBinding → Option Registry
add_new b r none = some (add b r)
add_new b r (some dup) = none

unfoldable pub load_entry : ScopeDefaults → Entry → Registry → Option Registry
unfolding load_scope_files binding_of text_eq
load_entry defaults e r = elim e.is_dir [
  | false ↦ some r
  | true ↦ elim (load_scope_files e) [
    | none ↦ none
    | some (o, a) ↦
        add_new (binding_of defaults e o a) r (first (has_token a.bearer_token) r.by_token)
  ]
]

unfoldable pub load_entries : ScopeDefaults → List Entry → Registry → Option Registry
unfolding load_entry
load_entries defaults [] r = some r
load_entries defaults (e ∷ es) r = elim (load_entry defaults e r) [
  | none ↦ none
  | some r' ↦ load_entries defaults es r'
]

abbrev pub empty_registry : Registry
empty_registry = record { by_token = []; by_scope = [] }

-- What `os.ReadDir` gives for `profiles`.
pub data Listing : Type 0 where
  no_directory : Listing
  listing_failed : Listing
  listed : List Entry → Listing

abbrev pub swap : Registry → Option Registry → Option ℕ × Registry
swap old none = (none, old)
swap old (some new) = (some (length new.by_scope), new)

-- `Load`: the number of scopes, or `none` for an error; and the registry afterwards.
unfoldable pub load : Text → ScopeDefaults → Listing → Registry → Option ℕ × Registry
unfolding load_entries
load config_dir defaults listing old = elim (is_empty config_dir) [
  | true ↦ (none, old)
  | false ↦ elim listing [
    | no_directory ↦ swap old (some empty_registry)
    | listing_failed ↦ (none, old)
    | listed es ↦ swap old (load_entries defaults es empty_registry)
  ]
]

unfoldable pub lookup_by_token : Text → Registry → Option ScopeBinding
unfolding text_eq
lookup_by_token t r = first (has_token t) r.by_token

-- `strings.SplitN(h, " ", 2)`, where a space occurs.
unfoldable pub cut_space : Text → Option (Text × Text)
cut_space [] = none
cut_space (c ∷ s) =
    if eqb c 32
    then some ([], s)
    else elim (cut_space s) [ none ↦ none | some (a, b) ↦ some (c ∷ a, b) ]

-- `strings.EqualFold(s, "Bearer")`: simple case folding is a parameter.
unfoldable pub bearer_from_header : (Text → Bool) → Text → Option Text
unfolding trim_space cut_space
bearer_from_header folds_to_bearer h = elim (cut_space (trim_space h)) [
  | none ↦ none
  | some (scheme, rest) ↦
      if folds_to_bearer scheme
      then if is_empty (trim_space rest) then none else some (trim_space rest)
      else none
]

-- `AuthMiddleware`: the binding that is put into the context, or `none` for 401.
unfoldable pub authenticate : (Text → Bool) → Registry → Text → Option ScopeBinding
unfolding bearer_from_header lookup_by_token
authenticate folds r h = elim (bearer_from_header folds h) [
  | none ↦ none
  | some t ↦ lookup_by_token t r
]
