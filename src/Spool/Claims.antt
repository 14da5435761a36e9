-- ===== src/Spool/Claims.antt =====
-- The methods of `PeerSpool` in src/swarph_cli/peer_executor.py that enqueue jobs and move their
-- claims: what each answers, and the writes that it makes in order. `now` is `time.time()`.
use swarph_cli.Prelude.{
  ℕ, ◌+◌, String, Option, none, some, Bool, true, false, ◌&&◌, List, [], ◌∷◌, leb, ◌==◌,
  if◌then◌else◌, string_eq, nat_eq,
}
use swarph_cli.Prelude.Python.{Fields, str, dict, get_or_null, value_eq}
use swarph_cli.Delivery.Entries.{Result, done, refused}
use swarph_cli.Spool.Files.{Claim, PeerSpool, Write, write_job, move_job, write_claim}
use swarph_cli.Spool.Envelopes.{canonical_id, is_job}

-- A call of a method: its answer, and its writes.
abbrev pub Call : Type 0 → Type 0
Call A = Result A × List Write

abbrev pub refuse : {A : Type 0} → Call A
refuse = (refused, [])

-- Where the job that `enqueue` answers with is.
pub data Place : Type 0 where
  in_pending : Place
  in_running : Place

-- A job of that name is there already.
unfoldable pub enqueue_again : Fields → Fields → Place → Call Place
enqueue_again job existing place =
    if is_job existing && value_eq (dict existing) (dict job) then (done place, []) else refuse

-- `enqueue`
unfoldable pub enqueue : Fields → PeerSpool → Call Place
enqueue job s =
    if is_job job
    then (elim (canonical_id (get_or_null "job_id" job)) [
      | none ↦ refuse
      | some id ↦ elim (s.pending id) [
        | some existing ↦ enqueue_again job existing in_pending
        | none ↦ elim (s.running id) [
          | some existing ↦ enqueue_again job existing in_running
          | none ↦ (done in_pending, write_job id job ∷ [])
        ]
      ]
    ])
    else refuse

-- The job is valid and addressed to the peer.
unfoldable pub is_job_of : String → Fields → Bool
is_job_of peer job = is_job job && value_eq (get_or_null "destination_peer" job) (str peer)

-- Microseconds of `claimed_at + 300`
abbrev pub lease : ℕ
lease = 300000000

-- `_new_claim`
unfoldable pub new_claim : String → String → ℕ → ℕ → Claim
new_claim id peer token now = record {
  job_id = id;
  destination_peer = peer;
  fencing_token = token;
  lease_expires_at = now + lease;
}

-- The checks of the two names that most methods begin with.
abbrev pub are_names : String → String → Bool
are_names id peer = elim (canonical_id (str id)) [
  | none ↦ false
  | some _ ↦ elim (canonical_id (str peer)) [ none ↦ false | some _ ↦ true ]
]

-- `claim`
unfoldable pub claim : String → String → ℕ → PeerSpool → Call Claim
claim id peer now s =
    let c = new_claim id peer 1 now in
    if are_names id peer
    then (elim (s.pending id) [
      | none ↦ refuse
      | some job ↦
          if is_job_of peer job then (done c, move_job id job ∷ write_claim id c ∷ []) else refuse
    ])
    else refuse

abbrev grant : String → Claim → Call Claim
grant id c = (done c, write_claim id c ∷ [])

-- The takeover of a claim whose lease is over, or of a job that a crash left without one.
unfoldable pub take_over : String → String → ℕ → Option Claim → Call Claim
take_over id peer now none = grant id (new_claim id peer 1 now)
take_over id peer now (some prior) =
    if prior.destination_peer == peer && leb prior.lease_expires_at now
    then grant id (new_claim id peer (prior.fencing_token + 1) now)
    else refuse

-- `reclaim`; a job with a receipt is refused whether or not the receipt is valid.
unfoldable pub reclaim : String → String → ℕ → PeerSpool → Call Claim
reclaim id peer now s =
    if are_names id peer
    then (elim (s.receipts id) [
      | some _ ↦ refuse
      | none ↦ elim (s.running id) [
        | none ↦ refuse
        | some job ↦ if is_job_of peer job then take_over id peer now (s.claims id) else refuse
      ]
    ])
    else refuse
