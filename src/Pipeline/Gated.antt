-- ===== src/Pipeline/Gated.antt =====
-- What the worker may write: proposals that wait for a decision, and nothing else of the registry.
use phantom_skills.Prelude.{
  ℕ, suc, ◌≡◌, ◌⊎◌, refl, sym, ap, ◌∙◌, subst, String, Bool, true, false, Option, none, some, List,
  [], ◌∷◌, ◌++◌, ◌==◌, All, All-append, inl, inr, Bool-cases, if◌then◌else◌,
}
use mathlib.Core.List.{append-nil, append_assoc}
use phantom_skills.Skillfile.Values.{Fields}
use phantom_skills.Store.Tables.{Db, Proposal, Stamp}
use phantom_skills.Store.Proposals.{
  ProposalInput, valid_proposal_kind, new_proposal, create_proposal_tx, create_proposal,
}
use phantom_skills.Ratchet.Improver.{Candidate}
use phantom_skills.Pipeline.{
  Author, Verifier, VerifierReport, Pipeline, Worker, State, Tick, pipeline_input, authored,
  with_content, Verdict, stage_failed, dropped, surfaced, verdict_of, verified, assess,
  record_verdict, propose_candidate, dispatch_and_tell, option_b, handle_candidate,
  handle_candidates, detected, detect_with, run_pipeline_once, run_ticks,
}

-- The verifier, if there is one, has passed the content of a `create`.
abbrev pub Passed : Option Verifier → String → String → Option Fields → String → Type 0
Passed none kind name fm body = Unit
Passed (some verify) kind name fm body =
    ((kind == "create") ≡ false)
    ⊎ ((report : VerifierReport) × (verify name fm body ≡ some report) × (report.passed ≡ true))

abbrev pub Waiting : Option Verifier → Proposal → Type 0
Waiting v p =
    (p.status ≡ "pending")
    × (p.created_by ≡ "pipeline")
    × Passed v p.kind p.skill_name p.proposed_frontmatter p.proposed_body

-- From `before` to `after` only proposals were added, and each waits for a decision.
pub record Gated (v : Option Verifier) (before after : Db) : Type 0 where
  pub same_skills : after.skills ≡ before.skills
  pub same_versions : after.versions ≡ before.versions
  pub same_promotions : after.promotions ≡ before.promotions
  pub added : List Proposal
  pub grown : after.proposals ≡ before.proposals ++ added
  pub waiting : All (Waiting v) added

Gated-refl : (v : Option Verifier) (db : Db) → Gated v db db
Gated-refl v db = record {
  same_skills = refl;
  same_versions = refl;
  same_promotions = refl;
  added = [];
  grown = sym (append-nil db.proposals);
  waiting = tt;
}

Gated-trans : (v : Option Verifier) (a b c : Db) → Gated v a b → Gated v b c → Gated v a c
Gated-trans v a b c h k = record {
  same_skills = k.same_skills ∙ h.same_skills;
  same_versions = k.same_versions ∙ h.same_versions;
  same_promotions = k.same_promotions ∙ h.same_promotions;
  added = h.added ++ k.added;
  grown = k.grown ∙ ap (λ ps. ps ++ k.added) h.grown ∙ append_assoc a.proposals h.added k.added;
  waiting = All-append (Waiting v) h.added k.added h.waiting k.waiting;
}

-- What an input carries that is surfaced.
abbrev Sound : Option Verifier → ProposalInput → Type 0
Sound v r =
    (r.created_by ≡ "pipeline")
    × Passed v r.kind r.skill_name r.proposed_frontmatter r.proposed_body

abbrev SoundVerdict : Option Verifier → Verdict → Type 0
SoundVerdict v stage_failed = Unit
SoundVerdict v dropped = Unit
SoundVerdict v (surfaced r) = Sound v r

verdict_of-Sound :
    (verify : Verifier) (r : ProposalInput) (report : Option VerifierReport)
    → r.created_by ≡ "pipeline"
    → verify r.skill_name r.proposed_frontmatter r.proposed_body ≡ report
    → SoundVerdict (some verify) (verdict_of r report)
verdict_of-Sound verify r none h e = tt
verdict_of-Sound verify r (some report) h e = elim (Bool-cases report.passed) [
  | inl f ↦ rw f (h, inr (report, e, f))
  | inr f ↦ rw f tt
]

abbrev Signed : Option ProposalInput → Type 0
Signed none = Unit
Signed (some r) = r.created_by ≡ "pipeline"

verified-Sound :
    (v : Option Verifier) (o : Option ProposalInput) → Signed o → SoundVerdict v (verified v o)
verified-Sound none none h = tt
verified-Sound (some verify) none h = tt
verified-Sound none (some r) h = (h, tt)
verified-Sound (some verify) (some r) h = verdict_of-Sound verify r _ h refl

with_content-Signed :
    (r : ProposalInput) (o : Option (Option Fields × String))
    → r.created_by ≡ "pipeline"
    → Signed (with_content r o)
with_content-Signed r none h = tt
with_content-Signed r (some (fm, body)) h = h

authored-Signed :
    (a : Option Author) (c : Candidate) (r : ProposalInput)
    → r.created_by ≡ "pipeline"
    → Signed (authored a c r)
unfolding authored
authored-Signed none c r h = h
authored-Signed (some author) c r h = elim (Bool-cases (r.proposed_body == "")) [
  | inl e ↦ rw (e, authored) (with_content-Signed r (author c) h)
  | inr e ↦ rw (e, authored) h
]

kind-Passed :
    (v : Option Verifier) (kind name : String) (fm : Option Fields) (body : String)
    → (kind == "create") ≡ false
    → Passed v kind name fm body
kind-Passed none kind name fm body h = tt
kind-Passed (some verify) kind name fm body h = inl h

assess-Sound : (p : Pipeline) (c : Candidate) → SoundVerdict p.verifier (assess p c)
unfolding assess
assess-Sound p c = elim (Bool-cases (c.kind == "create")) [
  | inl e ↦
      rw (e, assess)
        (verified-Sound p.verifier (authored p.author c (pipeline_input c))
          (authored-Signed p.author c (pipeline_input c) refl))
  | inr e ↦ rw (e, assess) (refl, kind-Passed p.verifier c.kind c.skill_name c.frontmatter c.body e)
]

create_proposal-Gated :
    (v : Option Verifier) (st : Stamp) (r : ProposalInput) (db : Db)
    → Sound v r
    → Gated v db (create_proposal st r db).1
unfolding create_proposal create_proposal_tx
create_proposal-Gated v st r db h = elim (Bool-cases (valid_proposal_kind r.kind)) [
  | inl e ↦ elim (Bool-cases (r.skill_name == "")) [
    | inl f ↦ rw (e, f) (Gated-refl v db)
    | inr f ↦
        rw (e, f)
          (record {
            same_skills = refl;
            same_versions = refl;
            same_promotions = refl;
            added = new_proposal st r db ∷ [];
            grown = refl;
            waiting = ((refl, h.0, h.1), tt);
          })
  ]
  | inr e ↦ rw e (Gated-refl v db)
]

record_verdict-Gated :
    (v : Option Verifier) (st : Stamp) (profiles : List String) (verdict : Verdict) (db : Db)
    → SoundVerdict v verdict
    → Gated v db (record_verdict st profiles verdict db)
record_verdict-Gated v st profiles stage_failed db h = Gated-refl v db
record_verdict-Gated v st profiles dropped db h = Gated-refl v db
record_verdict-Gated v st [] (surfaced r) db h = Gated-refl v db
record_verdict-Gated v st (profile ∷ _) (surfaced r) db h =
    create_proposal-Gated v st (record r { profile = profile }) db h

module _ (k : Worker) where
  abbrev verifier : Option Verifier
  verifier = k.pipeline.verifier

  dispatch_and_tell-db :
      (now : ℕ) (profiles : List String) (c : Candidate) (s : State)
      → (dispatch_and_tell k now profiles c s).db ≡ s.db
  unfolding dispatch_and_tell
  dispatch_and_tell-db now [] c s = refl
  dispatch_and_tell-db now (profile ∷ _) c s = refl

  handle_candidate-Gated :
      (st : Stamp) (c : Candidate) (s : State) → Gated verifier s.db (handle_candidate k st c s).db
  unfolding handle_candidate propose_candidate
  handle_candidate-Gated st c s = elim (Bool-cases (option_b k)) [
    | inl e ↦
        rw (e, handle_candidate)
          (subst (Gated verifier s.db) (sym (dispatch_and_tell-db st.now k.profiles c s))
            (Gated-refl verifier s.db))
    | inr e ↦
        rw (e, handle_candidate)
          (record_verdict-Gated verifier st k.profiles (assess k.pipeline c) s.db
            (assess-Sound k.pipeline c))
  ]

  handle_candidates-Gated :
      (stamps : ℕ → Stamp) (i : ℕ) (cs : List Candidate) (s : State)
      → Gated verifier s.db (handle_candidates k stamps i cs s).db
  unfolding handle_candidates
  handle_candidates-Gated stamps i [] s = Gated-refl verifier s.db
  handle_candidates-Gated stamps i (c ∷ cs) s =
      let t : State = handle_candidate k (stamps i) c s in
      Gated-trans verifier s.db t.db (handle_candidates k stamps (suc i) cs t).db
        (handle_candidate-Gated (stamps i) c s) (handle_candidates-Gated stamps (suc i) cs t)

  detected-Gated :
      (stamps : ℕ → Stamp) (o : Option (List Candidate)) (s : State)
      → Gated verifier s.db (detected k stamps o s).db
  detected-Gated stamps none s = Gated-refl verifier s.db
  detected-Gated stamps (some cs) s = handle_candidates-Gated stamps 0 cs s

  either-Gated :
      (b : Bool) (s t : State)
      → Gated verifier s.db t.db
      → Gated verifier s.db (if b then t else s).db
  either-Gated true s t h = h
  either-Gated false s t h = Gated-refl verifier s.db

  detect_with-Gated :
      (d : Option (ℕ → Option (List Candidate))) (stamps : ℕ → Stamp) (since : ℕ) (s : State)
      → Gated verifier s.db (detect_with k d stamps since s).db
  detect_with-Gated none stamps since s = Gated-refl verifier s.db
  detect_with-Gated (some detect) stamps since s =
      either-Gated k.improver.has_store s (detected k stamps (detect since) s)
        (detected-Gated stamps (detect since) s)

  -- However long the worker runs and whatever its stages answer, it changes no skill, no version and no
  -- promotion, and no proposal that was there: it only adds proposals, each of them pending and made
  -- by the pipeline, and where a verifier is wired, it has passed the content of each that creates a
  -- skill.
  pub run_ticks-Gated :
      (last : ℕ) (ticks : List Tick) (s : State)
      → Gated k.pipeline.verifier s.db (run_ticks k last ticks s).db
  unfolding run_ticks run_pipeline_once
  run_ticks-Gated last [] s = Gated-refl verifier s.db
  run_ticks-Gated last (t ∷ ts) s =
      let u : State = run_pipeline_once k t.stamps last s in
      Gated-trans verifier s.db u.db (run_ticks k t.now ts u).db
        (detect_with-Gated k.pipeline.detector t.stamps last s) (run_ticks-Gated t.now ts u)
