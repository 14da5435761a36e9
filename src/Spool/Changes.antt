-- ===== src/Spool/Changes.antt =====
-- The calls on the spool of src/swarph_cli/peer_executor.py as sequences of single guarded writes.
use swarph_cli.Prelude.{
  ℕ, zero, suc, ◌+◌, String, Option, none, some, true, ◌&&◌, [], ◌∷◌, take, leb, ◌==◌, ◌≡◌, refl,
  Bool-cases, Option-cases, eq_refl, inl, inr, string_eq, nat_eq,
}
use swarph_cli.Prelude.Python.{Fields, dict, get_or_null, value_eq}
use swarph_cli.Spool.Files.{
  Claim, Output, PeerSpool, Write, write_job, move_job, write_claim, write_text, write_receipt, put,
  write_atomic, write_all,
}
use swarph_cli.Spool.Envelopes.{canonical_id, is_job}
use swarph_cli.Spool.Claims.{
  Place, in_pending, in_running, are_names, enqueue_again, enqueue, is_job_of, new_claim, claim,
  take_over, reclaim,
}
use swarph_cli.Spool.Results.{output_digest, is_accepted}

pub put_same :
    {A : Type 0} (name : String) (a : A) (files : String → Option A)
    → put name a files name ≡ some a
put_same name a files = rw (eq_refl name) refl

module _ (sha256 : String → String) where
  -- One write, with the guard under which it is made.
  pub data Change (s : PeerSpool) : PeerSpool → Type 0 where
    queued :
        (id : String) (job : Fields)
        → s.pending id ≡ none
        → s.running id ≡ none
        → Change s (write_atomic (write_job id job) s)
    started :
        (id : String) (job : Fields)
        → s.pending id ≡ some job
        → Change s (write_atomic (move_job id job) s)
    claimed :
        (id : String) (job : Fields) (c : Claim)
        → s.running id ≡ some job
        → s.claims id ≡ none
        → s.receipts id ≡ none
        → c.fencing_token ≡ 1
        → Change s (write_atomic (write_claim id c) s)
    taken_over :
        (id : String) (job : Fields) (prior c : Claim)
        → s.running id ≡ some job
        → s.claims id ≡ some prior
        → s.receipts id ≡ none
        → c.fencing_token ≡ prior.fencing_token + 1
        → Change s (write_atomic (write_claim id c) s)
    produced :
        (name : String) (out : Output)
        → s.outputs name ≡ none
        → out.output_digest ≡ output_digest sha256 out.text
        → Change s (write_atomic (write_text name out) s)
    received :
        (id : String) (r : Fields)
        → s.receipts id ≡ none
        → canonical_id (get_or_null "job_id" r) ≡ some id
        → is_accepted sha256 r s ≡ true
        → Change s (write_atomic (write_receipt id r) s)

  pub data Changes : PeerSpool → PeerSpool → Type 0 where
    nothing : {s : PeerSpool} → Changes s s
    change : {s t u : PeerSpool} → Change s t → Changes t u → Changes s u

  -- The files of a spool belong together: no job is both pending and running, claims and receipts are of
  -- running jobs, and every receipt is still accepted.
  pub record IsSpool (s : PeerSpool) : Type 0 where
    pub apart : (id : String) (job : Fields) → s.pending id ≡ some job → s.running id ≡ none
    pub fresh : (id : String) → s.running id ≡ none → (s.claims id ≡ none) × (s.receipts id ≡ none)
    pub accepted :
        (id : String) (r : Fields)
        → s.receipts id ≡ some r
        → (canonical_id (get_or_null "job_id" r) ≡ some id) × (is_accepted sha256 r s ≡ true)

  cut_none : (n : ℕ) (s : PeerSpool) → Changes s (write_all (take n []) s)
  unfolding write_all
  cut_none zero s = nothing
  cut_none (suc n) s = nothing

  pub cut_one :
      (n : ℕ) (s : PeerSpool) (w : Write)
      → Change s (write_atomic w s)
      → Changes s (write_all (take n (w ∷ [])) s)
  unfolding write_all
  cut_one zero s w c = nothing
  cut_one (suc n) s w c = change c (cut_none n (write_atomic w s))

  pub cut_two :
      (n : ℕ) (s : PeerSpool) (w v : Write)
      → Change s (write_atomic w s)
      → Change (write_atomic w s) (write_atomic v (write_atomic w s))
      → Changes s (write_all (take n (w ∷ v ∷ [])) s)
  unfolding write_all
  cut_two zero s w v c d = nothing
  cut_two (suc n) s w v c d = change c (cut_one n (write_atomic w s) v d)

  -- A call that is refused or answered from the files writes nothing.
  pub no_writes : (n : ℕ) (s : PeerSpool) → Changes s (write_all (take n []) s)
  no_writes n s = cut_none n s

  enqueue_again-Changes :
      (n : ℕ) (job existing : Fields) (place : Place) (s : PeerSpool)
      → Changes s (write_all (take n (enqueue_again job existing place).1) s)
  unfolding enqueue_again
  enqueue_again-Changes n job existing place s =
      elim (Bool-cases (is_job existing && value_eq (dict existing) (dict job))) [
        | inl e ↦ rw e (no_writes n s)
        | inr e ↦ rw e (no_writes n s)
      ]

  pub enqueue-Changes :
      (n : ℕ) (job : Fields) (s : PeerSpool) → Changes s (write_all (take n (enqueue job s).1) s)
  unfolding enqueue
  enqueue-Changes n job s = elim (Bool-cases (is_job job)) [
    | inr b ↦ rw (enqueue, b) (no_writes n s)
    | inl b ↦ elim (Option-cases (canonical_id (get_or_null "job_id" job))) [
      | inl i ↦ rw (enqueue, b, i) (no_writes n s)
      | inr (id, i) ↦ elim (Option-cases (s.pending id)) [
        | inr (old, p) ↦ rw (enqueue, b, i, p) (enqueue_again-Changes n job old in_pending s)
        | inl p ↦ elim (Option-cases (s.running id)) [
          | inr (old, r) ↦ rw (enqueue, b, i, p, r) (enqueue_again-Changes n job old in_running s)
          | inl r ↦ rw (enqueue, b, i, p, r) (cut_one n s (write_job id job) (queued id job p r))
        ]
      ]
    ]
  ]

  -- A claim moves the job first: a crash in between leaves it running with no claim.
  pub claim-Changes :
      (n : ℕ) (id peer : String) (now : ℕ) (s : PeerSpool)
      → IsSpool s
      → Changes s (write_all (take n (claim id peer now s).1) s)
  unfolding claim write_atomic new_claim
  claim-Changes n id peer now s ok = elim (Bool-cases (are_names id peer)) [
    | inr b ↦ rw (claim, b) (no_writes n s)
    | inl b ↦ elim (Option-cases (s.pending id)) [
      | inl p ↦ rw (claim, b, p) (no_writes n s)
      | inr (job, p) ↦ elim (Bool-cases (is_job_of peer job)) [
        | inr j ↦ rw (claim, b, p, j) (no_writes n s)
        | inl j ↦
            let (no_claim, no_receipt) = ok.fresh id (ok.apart id job p) in
            rw (claim, b, p, j)
              (cut_two n s (move_job id job) (write_claim id (new_claim id peer 1 now))
                (started id job p)
                (claimed id job _ (put_same id job s.running) no_claim no_receipt refl))
      ]
    ]
  ]

  take_over-Changes :
      (n : ℕ) (id peer : String) (now : ℕ) (s : PeerSpool) (job : Fields)
      → s.running id ≡ some job
      → s.receipts id ≡ none
      → Changes s (write_all (take n (take_over id peer now (s.claims id)).1) s)
  unfolding take_over new_claim
  take_over-Changes n id peer now s job r no_receipt = elim (Option-cases (s.claims id)) [
    | inl c ↦ rw (take_over, c) (cut_one n s _ (claimed id job _ r c no_receipt refl))
    | inr (prior, c) ↦
        elim (Bool-cases (prior.destination_peer == peer && leb prior.lease_expires_at now)) [
          | inl e ↦
              rw (take_over, c, e) (cut_one n s _ (taken_over id job prior _ r c no_receipt refl))
          | inr e ↦ rw (take_over, c, e) (no_writes n s)
        ]
  ]

  pub reclaim-Changes :
      (n : ℕ) (id peer : String) (now : ℕ) (s : PeerSpool)
      → Changes s (write_all (take n (reclaim id peer now s).1) s)
  unfolding reclaim
  reclaim-Changes n id peer now s = elim (Bool-cases (are_names id peer)) [
    | inr b ↦ rw (reclaim, b) (no_writes n s)
    | inl b ↦ elim (Option-cases (s.receipts id)) [
      | inr (x, e) ↦ rw (reclaim, b, e) (no_writes n s)
      | inl e ↦ elim (Option-cases (s.running id)) [
        | inl r ↦ rw (reclaim, b, e, r) (no_writes n s)
        | inr (job, r) ↦ elim (Bool-cases (is_job_of peer job)) [
          | inr j ↦ rw (reclaim, b, e, r, j) (no_writes n s)
          | inl j ↦ rw (reclaim, b, e, r, j) (take_over-Changes n id peer now s job r e)
        ]
      ]
    ]
  ]
