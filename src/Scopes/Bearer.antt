-- ===== src/Scopes/Bearer.antt =====
-- A token leads to its scope.
use phantom_skills.Prelude.{
  ℕ, ◌≡◌, sym, ap, ◌∙◌, ◌⊎◌, inl, inr, Bool, true, false, Option, none, some, List, [], ◌∷◌, Elem,
  first, Bool-cases, Option-cases, arith,
}
use phantom_skills.Prelude.Keys.{first-append_none, first-append_some}
use phantom_skills.Text.{Text, is_empty}
use phantom_skills.Text.Laws.{text_eq_refl}
use phantom_skills.Scopes.{
  ScopeDefaults, ScopeOverrides, ScopeAuth, ScopeBinding, Registry, Entry, load_scope_files,
  binding_of, has_token, add, load_entry, load_entries, empty_registry, listed, swap, load,
  lookup_by_token, bearer_from_header, authenticate,
}

-- What loading one directory has done, where it is no error.
load_entry-added :
    (defaults : ScopeDefaults) (e : Entry) (r r' : Registry) (o : ScopeOverrides) (a : ScopeAuth)
    → e.is_dir ≡ true
    → load_scope_files e ≡ some (o, a)
    → load_entry defaults e r ≡ some r'
    → (first (has_token a.bearer_token) r.by_token ≡ none)
      × (r' ≡ add (binding_of defaults e o a) r)
unfolding load_entry
load_entry-added defaults e r r' o a d f h =
    elim (Option-cases (first (has_token a.bearer_token) r.by_token)) [
      | inl g ↦
          let k : ◌≡◌ {A = Option Registry} (some (add (binding_of defaults e o a) r)) (some r') =
            rw (load_entry, d, f, g) at h in
          (g, let same : add (binding_of defaults e o a) r ≡ r' = cc in sym same)
      | inr (dup, g) ↦
          let k : ◌≡◌ {A = Option Registry} none (some r') = rw (load_entry, d, f, g) at h in
          absurd (ground arith)
    ]

-- Loading another entry keeps every token where it leads.
load_entry-keeps :
    (defaults : ScopeDefaults) (e : Entry) (r r' : Registry) (t : Text) (b : ScopeBinding)
    → load_entry defaults e r ≡ some r'
    → lookup_by_token t r ≡ some b
    → lookup_by_token t r' ≡ some b
unfolding load_entry lookup_by_token
load_entry-keeps defaults e r r' t b h found = elim (Bool-cases e.is_dir) [
  | inr d ↦
      let k : ◌≡◌ {A = Option Registry} (some r) (some r') = rw (load_entry, d) at h in
      let same : r ≡ r' = cc in rw (← same) found
  | inl d ↦ elim (Option-cases (load_scope_files e)) [
    | inl f ↦
        let k : ◌≡◌ {A = Option Registry} none (some r') = rw (load_entry, d, f) at h in
        absurd (ground arith)
    | inr ((o, a), f) ↦
        let same = (load_entry-added defaults e r r' o a d f h).1 in
        rw same
          (first-append_some (has_token t) r.by_token (binding_of defaults e o a ∷ []) b found)
  ]
]

load_entries-keeps :
    (defaults : ScopeDefaults) (es : List Entry) (r r' : Registry) (t : Text) (b : ScopeBinding)
    → load_entries defaults es r ≡ some r'
    → lookup_by_token t r ≡ some b
    → lookup_by_token t r' ≡ some b
unfolding load_entries
load_entries-keeps defaults [] r r' t b h found = let same : r ≡ r' = cc in rw (← same) found
load_entries-keeps defaults (e ∷ es) r r' t b h found =
    elim (Option-cases (load_entry defaults e r)) [
      | inl f ↦
          let k : ◌≡◌ {A = Option Registry} none (some r') = rw (load_entries, f) at h in
          absurd (ground arith)
      | inr (r1, f) ↦
          load_entries-keeps defaults es r1 r' t b (rw (load_entries, f) at h)
            (load_entry-keeps defaults e r r1 t b f found)
    ]

load_entries-finds :
    (defaults : ScopeDefaults) (es : List Entry) (r r' : Registry)
    → load_entries defaults es r ≡ some r'
    → (e : Entry) (o : ScopeOverrides) (a : ScopeAuth) → Elem e es
    → e.is_dir ≡ true
    → load_scope_files e ≡ some (o, a)
    → lookup_by_token a.bearer_token r' ≡ some (binding_of defaults e o a)
unfolding load_entries lookup_by_token binding_of
load_entries-finds defaults [] r r' h e o a member d f = absurd member
load_entries-finds defaults (x ∷ es) r r' h e o a member d f =
    elim (Option-cases (load_entry defaults x r)) [
      | inl g ↦
          let k : ◌≡◌ {A = Option Registry} none (some r') = rw (load_entries, g) at h in
          absurd (ground arith)
      | inr (r1, g) ↦
          let onward : load_entries defaults es r1 ≡ some r' = rw (load_entries, g) at h in
          elim member [
            | inr later ↦ load_entries-finds defaults es r1 r' onward e o a later d f
            | inl here ↦
                let (new, same) = load_entry-added defaults e r r1 o a d f (rw (← here) at g) in
                load_entries-keeps defaults es r1 r' a.bearer_token (binding_of defaults e o a)
                  onward
                  (rw same (
                    first-append_none (has_token a.bearer_token) r.by_token
                      (binding_of defaults e o a) new (text_eq_refl a.bearer_token)))
          ]
    ]

-- A load either fails and keeps the registry that was there, or succeeds; then a request whose header
-- bears the token of any scope's directory is given the binding of exactly that directory: its
-- profile, its skillset and its merged defaults.
pub load-authenticate :
    (config_dir : Text) (defaults : ScopeDefaults) (es : List Entry) (old : Registry) (n : Option ℕ)
    (new : Registry)
    → is_empty config_dir ≡ false
    → load config_dir defaults (listed es) old ≡ (n, new)
    → (folds : Text → Bool) (e : Entry) (o : ScopeOverrides) (a : ScopeAuth) (header : Text)
    → Elem e es
    → e.is_dir ≡ true
    → load_scope_files e ≡ some (o, a)
    → bearer_from_header folds header ≡ some a.bearer_token
    → ((n ≡ none) × (new ≡ old))
      ⊎ (authenticate folds new header ≡ some (binding_of defaults e o a))
unfolding load authenticate
load-authenticate config_dir defaults es old n new dir h folds e o a header member d g bears =
    elim (Option-cases (load_entries defaults es empty_registry)) [
      | inl f ↦
          let k : ◌≡◌ {A = Option ℕ × Registry} (none, old) (n, new) = rw (load, dir, f) at h in
          inl (sym (ap (λ p. p.0) k), sym (ap (λ p. p.1) k))
      | inr (r, f) ↦
          let k : ◌≡◌ {A = Option ℕ × Registry} (swap old (some r)) (n, new) =
            rw (load, dir, f) at h in
          let same : r ≡ new = ap (λ p. p.1) k in
          inr (
            ap (λ x. authenticate folds x header) (sym same)
            ∙ rw (bears, authenticate)
                (load_entries-finds defaults es empty_registry r f e o a member d g))
    ]
