-- ===== src/Spool/Phases.antt =====
-- The life of a job in a spool of src/swarph_cli/peer_executor.py, as a state machine that the files
-- implement.
use swarph_cli.Prelude.{
  ℕ, ◌+◌, String, Option, none, some, ◌≡◌, ◌≢◌, refl, sym, ap, ◌∙◌, inl, inr, Bool-cases, ◌==◌,
  eq_iff, eq_refl, string_eq,
}
use swarph_cli.Prelude.Python.{Fields}
use swarph_cli.Spool.Files.{Claim, PeerSpool, take_out, empty_spool, write_atomic}
use swarph_cli.Spool.Requests.{Run, here, next}
use swarph_cli.Spool.Changes.{
  Change, queued, started, claimed, taken_over, produced, received, Changes, nothing, change,
  IsSpool,
}
use swarph_cli.Spool.Steps.{HasDigests, cut-Changes}
use swarph_cli.Spool.Invariant.{Change-IsSpool, empty-IsSpool, Run-IsSpool, accepted-claim}

-- `orphaned` is a running job with no claim, as a crash inside of a claim leaves it.
pub data Phase : Type 0 where
  absent : Phase
  waiting : Phase
  orphaned : Phase
  in_service : ℕ → Phase
  answered : ℕ → Phase

pub data Move : Phase → Phase → Type 0 where
  post : Move absent waiting
  start : Move waiting orphaned
  claim : Move orphaned (in_service 1)
  take_over : (n : ℕ) → Move (in_service n) (in_service (n + 1))
  answer : (n : ℕ) → Move (in_service n) (answered n)

pub data Moves : Phase → Phase → Type 0 where
  stay : {p : Phase} → Moves p p
  move : {p q r : Phase} → Moves p q → Move q r → Moves p r

unfoldable pub phase_of : Option Fields → Option Fields → Option Claim → Option Fields → Phase
phase_of pending (some job) (some c) (some r) = answered c.fencing_token
phase_of pending (some job) (some c) none = in_service c.fencing_token
phase_of pending (some job) none receipt = orphaned
phase_of (some job) none held receipt = waiting
phase_of none none held receipt = absent

-- What the files say of a job.
unfoldable pub phase : String → PeerSpool → Phase
unfolding phase_of
phase id s = phase_of (s.pending id) (s.running id) (s.claims id) (s.receipts id)

Moves-trans : {p q r : Phase} → Moves p q → Moves q r → Moves p r
Moves-trans m stay = m
Moves-trans m (move n x) = move (Moves-trans m n) x

one : {p q : Phase} → Move p q → Moves p q
one m = move stay m

-- The same files make the same phase.
unmoved :
    (id : String) (s t : PeerSpool)
    → t.pending id ≡ s.pending id
    → t.running id ≡ s.running id
    → t.claims id ≡ s.claims id
    → t.receipts id ≡ s.receipts id
    → Moves (phase id s) (phase id t)
unfolding phase
unmoved id s t p r c e = rw (p, r, c, e) stay

moved :
    (id : String) (s t : PeerSpool) (p q : Phase)
    → phase id s ≡ p
    → phase id t ≡ q
    → Move p q
    → Moves (phase id s) (phase id t)
moved id s t p q e f m = rw (e, f) (one m)

take_out_same :
    {A : Type 0} (name : String) (files : String → Option A) → take_out name files name ≡ none
take_out_same name files = rw (eq_refl name) refl

take_out_other :
    {A : Type 0} (name : String) (files : String → Option A) (k : String)
    → name ≢ k
    → take_out name files k ≡ files k
take_out_other name files k h = elim (Bool-cases (name == k)) [
  | inl e ↦ absurd (h ((eq_iff name k).0 e))
  | inr e ↦ rw e refl
]

-- The phase, where the files are known.
module _ (id : String) (s : PeerSpool) where
  is_absent : s.pending id ≡ none → s.running id ≡ none → phase id s ≡ absent
  unfolding phase
  is_absent p r = rw (p, r) refl

  is_waiting : (job : Fields) → s.pending id ≡ some job → s.running id ≡ none → phase id s ≡ waiting
  unfolding phase
  is_waiting job p r = rw (p, r) refl

  is_orphaned :
      (job : Fields) → s.running id ≡ some job → s.claims id ≡ none → phase id s ≡ orphaned
  unfolding phase
  is_orphaned job r c = rw (r, c) refl

  is_in_service :
      (job : Fields) (c : Claim)
      → s.running id ≡ some job
      → s.claims id ≡ some c
      → s.receipts id ≡ none
      → phase id s ≡ in_service c.fencing_token
  unfolding phase
  is_in_service job c r q e = rw (r, q, e) refl

  is_answered :
      (job : Fields) (c : Claim) (x : Fields)
      → s.running id ≡ some job
      → s.claims id ≡ some c
      → s.receipts id ≡ some x
      → phase id s ≡ answered c.fencing_token
  unfolding phase
  is_answered job c x r q e = rw (r, q, e) refl

to_fence : (p : Phase) (n m : ℕ) → n ≡ m → Move p (in_service m) → Move p (in_service n)
to_fence p n m e h = rw e h

module _ (sha256 : String → String) (id : String) where
  Change-Moves :
      (s t : PeerSpool) → IsSpool sha256 s → Change sha256 s t → Moves (phase id s) (phase id t)
  unfolding write_atomic
  Change-Moves s t ok (queued k job p r) = elim (Bool-cases (k == id)) [
    | inl e ↦
        let same = (eq_iff k id).0 e in
        let none_waits = ap s.pending (sym same) ∙ p in
        let none_runs = ap s.running (sym same) ∙ r in
        moved id s _ absent waiting (is_absent id s none_waits none_runs)
          (is_waiting id _ job (rw e refl) none_runs) post
    | inr e ↦ unmoved id s _ (rw e refl) refl refl refl
  ]
  Change-Moves s t ok (started k job p) = elim (Bool-cases (k == id)) [
    | inl e ↦
        let same = (eq_iff k id).0 e in
        let waits = ap s.pending (sym same) ∙ p in
        let none_runs = ok.apart id job waits in
        moved id s _ waiting orphaned (is_waiting id s job waits none_runs)
          (is_orphaned id _ job (rw e refl) (ok.fresh id none_runs).0) start
    | inr e ↦ unmoved id s _ (rw e refl) (rw e refl) refl refl
  ]
  Change-Moves s t ok (claimed k job c r n x f) = elim (Bool-cases (k == id)) [
    | inl e ↦
        let same = (eq_iff k id).0 e in
        let runs = ap s.running (sym same) ∙ r in
        moved id s _ orphaned (in_service c.fencing_token)
          (is_orphaned id s job runs (ap s.claims (sym same) ∙ n))
          (is_in_service id _ job c runs (rw e refl) (ap s.receipts (sym same) ∙ x))
          (to_fence orphaned c.fencing_token 1 f claim)
    | inr e ↦ unmoved id s _ refl refl (rw e refl) refl
  ]
  Change-Moves s t ok (taken_over k job prior c r p x f) = elim (Bool-cases (k == id)) [
    | inl e ↦
        let same = (eq_iff k id).0 e in
        let runs = ap s.running (sym same) ∙ r in
        let no_receipt = ap s.receipts (sym same) ∙ x in
        moved id s _ (in_service prior.fencing_token) (in_service c.fencing_token)
          (is_in_service id s job prior runs (ap s.claims (sym same) ∙ p) no_receipt)
          (is_in_service id _ job c runs (rw e refl) no_receipt)
          (to_fence (in_service prior.fencing_token) c.fencing_token (prior.fencing_token + 1) f
            (take_over prior.fencing_token))
    | inr e ↦ unmoved id s _ refl refl (rw e refl) refl
  ]
  Change-Moves s t ok (produced name out n d) = unmoved id s _ refl refl refl refl
  Change-Moves s t ok (received k r n named acc) = elim (Bool-cases (k == id)) [
    | inl e ↦
        let same = (eq_iff k id).0 e in
        let (job, c, runs, claims) = accepted-claim sha256 r k s named acc in
        let runs' = ap s.running (sym same) ∙ runs in
        let claims' = ap s.claims (sym same) ∙ claims in
        moved id s _ (in_service c.fencing_token) (answered c.fencing_token)
          (is_in_service id s job c runs' claims' (ap s.receipts (sym same) ∙ n))
          (is_answered id _ job c r runs' claims' (rw e refl)) (answer c.fencing_token)
    | inr e ↦ unmoved id s _ refl refl refl (rw e refl)
  ]

  Changes-Moves :
      {s t : PeerSpool} → IsSpool sha256 s → Changes sha256 s t → Moves (phase id s) (phase id t)
  Changes-Moves ok nothing = stay
  Changes-Moves ok (change c rest) =
      Moves-trans (Change-Moves _ _ ok c) (Changes-Moves (Change-IsSpool sha256 _ _ ok c) rest)

  after-Moves :
      {s t : PeerSpool}
      → HasDigests sha256
      → IsSpool sha256 s
      → Run sha256 s t
      → Moves (phase id s) (phase id t)
  after-Moves digests ok here = stay
  after-Moves digests ok (next n r run) =
      let before = Run-IsSpool sha256 digests ok run in
      Moves-trans (after-Moves digests ok run)
        (Changes-Moves before (cut-Changes sha256 n r _ digests before))

  -- The spool refines the state machine of a job: whatever calls are made or cut by a crash, what the
  -- files say of a job changes by its moves only; from an empty spool, where SHA-256 digests are 64 hex
  -- digits.
  pub Run-Moves :
      (s t : PeerSpool)
      → HasDigests sha256
      → Run sha256 empty_spool s
      → Run sha256 s t
      → Moves (phase id s) (phase id t)
  Run-Moves s t digests before after =
      after-Moves digests (Run-IsSpool sha256 digests (empty-IsSpool sha256) before) after
