-- ===== src/Handoff/Steps.antt =====
-- The steps of a staged job, each at the files that the step before it left: the methods of
-- src/swarph_cli/peer_executor.py, as src/swarph_cli/peer_staging.py and a service call them.
use swarph_cli.Prelude.{
  ℕ, ◌≤◌, String, none, some, true, false, List, [], ◌∷◌, ◌==◌, ◌≡◌, refl, arith, eq_refl,
  string_eq, nat_eq, option_eq,
}
use swarph_cli.Prelude.Python.{
  Fields, int, str, dict, get, get_or_null, value_eq, keys_are, keys_within, has_all, has_key,
}
use swarph_cli.Prelude.Json.{dumps}
use swarph_cli.Prelude.Values.{value_eq_str_refl}
use swarph_cli.Delivery.Entries.{Job, Entry, DeliveryQueue, done, entry_of}
use swarph_cli.Delivery.Digest.{is_digest}
use swarph_cli.Delivery.Operations.{acknowledge}
use swarph_cli.Delivery.Receipts
use swarph_cli.Delivery.Receipts.{
  active_job, id_of, agree, spool_ref, fits_claim, reconcile_spool_receipt,
}
use swarph_cli.Spool.Files.{
  Claim, PeerSpool, Write, write_job, move_job, write_claim, write_text, write_receipt, output_name,
  write_atomic, write_all,
}
use swarph_cli.Spool.Envelopes.{is_file_name, canonical_id, is_job, is_source_ref, envelope_digest}
use swarph_cli.Spool.Claims.{in_pending, are_names, enqueue, is_job_of, new_claim, claim}
use swarph_cli.Spool.Results.{
  held, held_job, new_output, new_receipt, finish, can_produce, produce_receipt, accepted_receipt,
}
use swarph_cli.Spool.Changes.{put_same}
use swarph_cli.Spool.Acceptance.{is_job-names, canonical-is_canonical}
use swarph_cli.Spool.Steps.{HasDigests, produced-accepted, can_produce-CanProduce}
use swarph_cli.Spool.Evidence.{held_job-Holds, is_canonical-true}
use swarph_cli.Handoff.{source_ref, envelope, reconcile}

-- The spool has no file of the job.
pub record HasNoFiles (id : String) (s : PeerSpool) : Type 0 where
  pub not_pending : s.pending id ≡ none
  pub not_running : s.running id ≡ none
  pub no_claim : s.claims id ≡ none
  pub no_output : s.outputs (output_name id (int 1)) ≡ none
  pub no_receipt : s.receipts id ≡ none

-- The claim makes a valid job, and its provenance is one that receipts may carry.
pub record CanStage (j : Job) : Type 0 where
  pub valid : is_job (envelope j) ≡ true
  pub sourced : canonical_id (str j.source_peer) ≡ some j.source_peer
  pub positive : 1 ≤ j.source_dm_id
  pub fenced : 1 ≤ j.fencing_token

envelope-names :
    (j : Job)
    → is_job (envelope j) ≡ true
    → (canonical_id (str j.job_id) ≡ some j.job_id)
      × (canonical_id (str j.destination_peer) ≡ some j.destination_peer)
unfolding envelope get_or_null get
envelope-names j h =
    let (named, addressed) = is_job-names (envelope j) h in
    (canonical-is_canonical j.job_id named, canonical-is_canonical j.destination_peer addressed)

not_empty : (s : String) → canonical_id (str s) ≡ some s → (s == "") ≡ false
unfolding canonical_id is_file_name
not_empty s h = ground arith

-- The job as a service finds it after it has claimed it.
abbrev pub first_claim : Job → ℕ → Claim
first_claim j now = new_claim j.job_id j.destination_peer 1 now

module _ (j : Job) (s : PeerSpool) (ready : CanStage j) (clean : HasNoFiles j.job_id s) where
  pub enqueued : enqueue (envelope j) s ≡ (done in_pending, write_job j.job_id (envelope j) ∷ [])
  unfolding enqueue
  enqueued =
      let named : canonical_id (get_or_null "job_id" (envelope j)) ≡ some j.job_id =
        unfold envelope get_or_null get in (envelope-names j ready.valid).0 in
      rw (enqueue, ready.valid, named, clean.not_pending, clean.not_running) refl

  pub claimed :
      (now : ℕ)
      → claim j.job_id j.destination_peer now (write_atomic (write_job j.job_id (envelope j)) s) ≡ (
        done (first_claim j now),
        move_job j.job_id (envelope j) ∷ write_claim j.job_id (first_claim j now) ∷ [],
      )
  unfolding claim write_atomic
  claimed now =
      let (named, addressed) = envelope-names j ready.valid in
      let names : are_names j.job_id j.destination_peer ≡ true =
        rw (are_names, named, addressed) refl in
      let pending = put_same j.job_id (envelope j) s.pending in
      let for_peer : is_job_of j.destination_peer (envelope j) ≡ true =
        unfold is_job_of envelope get_or_null get in
        rw (ready.valid) (value_eq_str_refl j.destination_peer) in
      rw (claim, names, pending, for_peer) refl

  -- The spool that the staging and the claim leave.
  unfoldable pub at_work : ℕ → PeerSpool
  at_work now =
      write_all
        (write_job j.job_id (envelope j)
          ∷ move_job j.job_id (envelope j)
          ∷ write_claim j.job_id (first_claim j now)
          ∷ [])
        s

  held_by_peer :
      (now : ℕ) → held_job j.job_id j.destination_peer 1 (at_work now) ≡ some (envelope j)
  unfolding held_job held at_work write_all write_atomic new_claim
  held_by_peer now =
      let (named, addressed) = envelope-names j ready.valid in
      let names : are_names j.job_id j.destination_peer ≡ true =
        rw (are_names, named, addressed) refl in
      let to_peer : value_eq (get_or_null "destination_peer" (envelope j)) (str j.destination_peer)
          ≡ true =
        unfold envelope get_or_null get in value_eq_str_refl j.destination_peer in
      rw
        (
          names,
          put_same j.job_id (envelope j) s.running,
          put_same j.job_id (first_claim j now) s.claims,
          to_peer,
          eq_refl j.destination_peer,
        )
        refl

  module _ (sha256 : String → String) (digests : HasDigests sha256) (text payload : String)
      (now : ℕ) (payload_ok : is_digest (str payload) ≡ true) where
    abbrev pub envelope_hash : String
    envelope_hash = sha256 (dumps (dict (envelope j)))

    abbrev pub receipt : Fields
    receipt =
        new_receipt sha256 j.job_id j.destination_peer 1 text (source_ref j) payload envelope_hash
          (int j.source_dm_id)

    abbrev pub written : List Write
    written =
        write_text (output_name j.job_id (int 1))
          (new_output sha256 j.job_id j.destination_peer 1 text (int j.source_dm_id))
        ∷ write_receipt j.job_id receipt
        ∷ []

    hashed : envelope_digest sha256 (envelope j) ≡ some envelope_hash
    unfolding envelope_digest
    hashed = rw ready.valid refl

    ref_fits : is_source_ref (source_ref j) (int j.source_dm_id) ≡ true
    unfolding is_source_ref source_ref keys_are keys_within has_all has_key get_or_null get value_eq
    ref_fits =
        let peer_ok = is_canonical-true (str j.source_peer) j.source_peer ready.sourced in
        let positive = ready.positive in let fenced = ready.fenced in ground arith

    can :
        can_produce sha256 payload envelope_hash (source_ref j) (int j.source_dm_id) (envelope j)
        ≡ true
    unfolding can_produce
    can =
        rw (payload_ok, digests (dumps (dict (envelope j))), ref_fits, hashed)
          (eq_refl (some envelope_hash))

    pub produced :
        produce_receipt sha256 j.job_id j.destination_peer 1 text
          (source_ref j)
          payload
          envelope_hash
          (at_work now)
        ≡ (done receipt, written)
    unfolding produce_receipt finish at_work write_all write_atomic
    produced =
        let source : get "source_dm_id" (envelope j) ≡ some (int j.source_dm_id) =
          unfold envelope get in refl in
        rw (produce_receipt, held_by_peer now, source, can)
          (rw (finish, clean.no_receipt, clean.no_output) refl)

    unfoldable pub served : PeerSpool
    served = write_all written (at_work now)

    answered : accepted_receipt sha256 j.job_id served ≡ done (some receipt)
    unfolding accepted_receipt served write_all write_atomic new_output
    answered =
        let (c, holds) =
          held_job-Holds j.job_id j.destination_peer 1 (envelope j) (at_work now)
            (held_by_peer now) in
        let source : get "source_dm_id" (envelope j) ≡ some (int j.source_dm_id) =
          unfold envelope get in refl in
        let good =
          produced-accepted sha256 digests j.job_id j.destination_peer 1 text (source_ref j) payload
            envelope_hash (int j.source_dm_id) (envelope j) c
            (new_output sha256 j.job_id j.destination_peer 1 text (int j.source_dm_id))
            (at_work now) served holds source
            (can_produce-CanProduce sha256 payload envelope_hash (source_ref j) (int j.source_dm_id)
              (envelope j) can)
            refl refl (put_same _ _ (at_work now).outputs) refl in
        rw
          (
            accepted_receipt,
            (envelope-names j ready.valid).0,
            put_same j.job_id receipt (at_work now).receipts,
            good,
          )
          refl

    -- The ledger's own checks of the receipt.
    ref_agrees : Receipts.is_source_ref (source_ref j) receipt ≡ true
    unfolding new_receipt get_or_null get source_ref keys_are value_eq Receipts.is_source_ref
        has_key
    ref_agrees =
        let named = not_empty j.source_peer ready.sourced in ground (arith, eq_refl j.source_dm_id)

    ref_found : spool_ref receipt ≡ some (source_ref j)
    unfolding spool_ref new_receipt
    ref_found = rw (ref_agrees, digests text) refl

    fits : fits_claim (source_ref j) receipt j ≡ true
    unfolding fits_claim new_receipt source_ref
    fits =
        rw
          (
            eq_refl j.job_id,
            eq_refl j.source_dm_id,
            eq_refl j.destination_peer,
            eq_refl j.fencing_token,
            eq_refl j.source_peer,
          )
          refl

    -- The ledger takes the receipt of the claim that it holds.
    pub acknowledged :
        (q : DeliveryQueue) (e : Entry)
        → entry_of j.source_dm_id q.live.pending ≡ some e
        → active_job e ≡ some j
        → reconcile sha256 j.job_id served q ≡ (done true, acknowledge j.source_dm_id receipt q)
    unfolding reconcile reconcile_spool_receipt
    acknowledged q e n a =
        let id : id_of (get_or_null "queue_entry_id" (source_ref j)) ≡ some j.source_dm_id =
          unfold source_ref get_or_null get in refl in
        rw (reconcile, answered) (rw (reconcile_spool_receipt, ref_found, id, n, a, fits) refl)
