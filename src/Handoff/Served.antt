-- ===== src/Handoff/Served.antt =====
-- A claim of the ledger, served to the end: what src/swarph_cli/peer_staging.py stages is claimed,
-- answered and acknowledged.
use swarph_cli.Prelude.{
  ℕ, ◌≤◌, String, none, some, true, [], ◌∷◌, ◌==◌, ◌≡◌, refl, sym, ap, subst, ◌∙◌, inl, inr,
  string_eq, nat_eq, option_eq, find-In, All-In, find-any, remove_first,
}
use swarph_cli.Prelude.Python.{Fields, str, dict}
use swarph_cli.Prelude.Json.{dumps}
use swarph_cli.Delivery.Entries.{
  Job, Entry, DeliveryQueue, ServiceState, is_claimed, done, entry_of,
}
use swarph_cli.Delivery.Digest.{is_digest}
use swarph_cli.Delivery.Operations.{acknowledge, claim_for_service, assign}
use swarph_cli.Delivery.Steps
use swarph_cli.Delivery.Steps.{Operation}
use swarph_cli.Delivery.Invariant.{ClaimOk, EntryOk, IsLedger, serve-IsLedger}
use swarph_cli.Delivery.Obligations.{same_id, removed_gone}
use swarph_cli.Delivery.Claims.{claim_for_service-Granted}
use swarph_cli.Delivery.Receipts.{active_job}
use swarph_cli.Spool.Files.{PeerSpool, write_job, write_all}
use swarph_cli.Spool.Envelopes.{canonical_id, is_job}
use swarph_cli.Spool.Claims.{claim}
use swarph_cli.Spool.Results.{held, produce_receipt}
use swarph_cli.Spool.Steps.{HasDigests}
use swarph_cli.Handoff.{source_ref, envelope, stage_claim, stage, reconcile}
use swarph_cli.Handoff.Steps.{
  HasNoFiles, CanStage, enqueued, claimed, at_work, receipt, produced, served, acknowledged,
}

-- The claim `j` stands with the message in the ledger.
record HasClaim (dm_id : ℕ) (j : Job) (q : DeliveryQueue) : Type 0 where
  entry : Entry
  stands : entry_of dm_id q.live.pending ≡ some entry
  active : active_job entry ≡ some j
  names : j.source_dm_id ≡ dm_id
  fenced : 1 ≤ j.fencing_token

stands-HasClaim :
    (dm_id : ℕ) (j : Job) (q : DeliveryQueue) (e : Entry)
    → IsLedger q
    → entry_of dm_id q.live.pending ≡ some e
    → e.service_state ≡ ServiceState.claimed
    → e.job ≡ some j
    → HasClaim dm_id j q
unfolding entry_of active_job
stands-HasClaim dm_id j q e l n c o =
    let (member, _) = find-In (λ (k : Entry). k.id == dm_id) q.live.pending e n in
    let ok = All-In EntryOk q.live.pending e l.entries member in
    let (k, held, names, fenced) = subst (λ x. ClaimOk x e.id e.job) c ok in
    let same : k ≡ j = let h = sym held ∙ o in cc in
    record {
      entry = e;
      stands = n;
      active = rw (active_job, c, o) refl;
      names = ap (λ (x : Job). x.source_dm_id) (sym same) ∙ names ∙ same_id dm_id q e n;
      fenced = subst (λ (x : Job). 1 ≤ x.fencing_token) same fenced;
    }

is_claimed-state : (x : ServiceState) → is_claimed x ≡ true → x ≡ ServiceState.claimed
is_claimed-state ServiceState.claimed h = refl
is_claimed-state ServiceState.unassigned h = cc
is_claimed-state ServiceState.capacity_refused h = cc

claim_for_service-HasClaim :
    (dm_id : ℕ) (destination : String) (max_active : ℕ) (q : DeliveryQueue) (j : Job)
    → IsLedger q
    → (claim_for_service dm_id destination max_active q).0 ≡ done (some j)
    → HasClaim dm_id j (claim_for_service dm_id destination max_active q).1
claim_for_service-HasClaim dm_id destination max_active q j l h =
    let (e, n, _, _, granted) = claim_for_service-Granted dm_id destination max_active q j h in
    let after : IsLedger (claim_for_service dm_id destination max_active q).1 =
      unfold Steps.serve in serve-IsLedger (Operation.claim dm_id destination max_active) q l in
    elim granted [
      | inl (c, o, same) ↦
          stands-HasClaim dm_id j _ e after (ap (λ x. entry_of dm_id x.live.pending) same ∙ n)
            (is_claimed-state e.service_state c) o
      | inr (_, _, stored) ↦
          stands-HasClaim dm_id j _ (assign j e) after stored (unfold assign in refl)
            (unfold assign in refl)
    ]

module _ (sha256 : String → String) (dm_id max_active now : ℕ) (text payload : String) where
  -- Staging the message for the peer, its claim, its receipt and the reconciliation, one after the other:
  -- the job is staged, the receipt is accepted, and the message has left the ledger.
  abbrev pub IsAcknowledged : String → DeliveryQueue → PeerSpool → Job → Type 0
  IsAcknowledged destination q s j =
      let staged = stage dm_id destination max_active q s in
      let s1 = write_all staged.writes s in
      let s2 = write_all (claim j.job_id destination now s1).1 s1 in
      let produced =
        produce_receipt sha256 j.job_id destination 1 text (source_ref j) payload
          (sha256 (dumps (dict (envelope j)))) s2 in
      let (known, q') = reconcile sha256 j.job_id (write_all produced.1 s2) staged.queue in
      (staged.answer ≡ done (some (envelope j)))
      × (known ≡ done true)
      × (entry_of dm_id q'.live.pending ≡ none)

  staged_as :
      (q : DeliveryQueue) (s : PeerSpool) (j : Job)
      → CanStage j
      → HasNoFiles j.job_id s
      → (claim_for_service dm_id j.destination_peer max_active q).0 ≡ done (some j)
      → stage dm_id j.destination_peer max_active q s ≡ record {
        answer = done (some (envelope j));
        queue = (claim_for_service dm_id j.destination_peer max_active q).1;
        writes = write_job j.job_id (envelope j) ∷ [];
      }
  unfolding stage
  staged_as q s j ready clean h =
      let e = enqueued j s ready clean in rw (stage, h) (rw (stage_claim, e) (rw e refl))

  left_ledger :
      (q : DeliveryQueue) (r : Fields)
      → IsLedger q
      → entry_of dm_id (acknowledge dm_id r q).live.pending ≡ none
  unfolding acknowledge entry_of
  left_ledger q r l =
      find-any (λ (e : Entry). e.id == dm_id) (remove_first (λ e. e.id == dm_id) q.live.pending)
        (removed_gone dm_id q.live.pending l.unique)

  served_through :
      (q : DeliveryQueue) (s : PeerSpool) (j : Job)
      → HasDigests sha256
      → IsLedger q
      → is_digest (str payload) ≡ true
      → CanStage j
      → HasNoFiles j.job_id s
      → (claim_for_service dm_id j.destination_peer max_active q).0 ≡ done (some j)
      → IsAcknowledged j.destination_peer q s j
  unfolding write_all at_work served
  served_through q s j digests l payload_ok ready clean h =
      let c = claim_for_service-HasClaim dm_id j.destination_peer max_active q j l h in
      let after : IsLedger (claim_for_service dm_id j.destination_peer max_active q).1 =
        unfold Steps.serve in
        serve-IsLedger (Operation.claim dm_id j.destination_peer max_active) q l in
      let gone =
        left_ledger _ (receipt j s ready clean sha256 digests text payload now payload_ok) after in
      let ack =
        subst
          (λ i.
            reconcile sha256 j.job_id
              (served j s ready clean sha256 digests text payload now payload_ok)
              (claim_for_service dm_id j.destination_peer max_active q).1
            ≡ (
              done true,
              acknowledge i (receipt j s ready clean sha256 digests text payload now payload_ok)
                  (claim_for_service dm_id j.destination_peer max_active q).1,
            ))
          c.names
          (acknowledged j s ready clean sha256 digests text payload now payload_ok _ c.entry
            (ap
                (λ i.
                  entry_of i
                    (claim_for_service dm_id j.destination_peer max_active q).1.live.pending)
                c.names
              ∙ c.stands)
            c.active) in
      rw (staged_as q s j ready clean h) (
        rw (claimed j s ready clean now) (
          rw (produced j s ready clean sha256 digests text payload now payload_ok)
            (rw ack (refl, refl, gone))))

-- A message of the ledger that a claim was granted for can be served to its end: where the spool has no
-- file of the job, the job is valid, its peers' names are file names and its id is positive, staging,
-- claiming, answering and reconciling it one after the other takes the message out of the ledger against
-- its receipt; where the ledger is in order and SHA-256 digests are 64 hex digits.
pub stage-IsAcknowledged :
    (sha256 : String → String) (dm_id max_active now : ℕ) (destination text payload : String)
    (q : DeliveryQueue) (s : PeerSpool) (j : Job)
    → HasDigests sha256
    → IsLedger q
    → 1 ≤ dm_id
    → (claim_for_service dm_id destination max_active q).0 ≡ done (some j)
    → is_job (envelope j) ≡ true
    → canonical_id (str j.source_peer) ≡ some j.source_peer
    → is_digest (str payload) ≡ true
    → HasNoFiles j.job_id s
    → IsAcknowledged sha256 dm_id max_active now text payload destination q s j
stage-IsAcknowledged sha256 dm_id max_active now destination text payload q s j digests l one h
      valid sourced payload_ok clean =
    let (_, _, _, to, _) = claim_for_service-Granted dm_id destination max_active q j h in
    let c = claim_for_service-HasClaim dm_id destination max_active q j l h in
    let ready : CanStage j = record {
      valid = valid;
      sourced = sourced;
      positive = subst (λ n. 1 ≤ n) (sym c.names) one;
      fenced = c.fenced;
    } in
    subst (λ d. IsAcknowledged sha256 dm_id max_active now text payload d q s j) to
      (served_through sha256 dm_id max_active now text payload q s j digests l payload_ok ready
        clean (subst (λ d. (claim_for_service dm_id d max_active q).0 ≡ done (some j)) (sym to) h))
