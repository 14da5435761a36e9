-- ===== src/Delivery/Tests.antt =====
-- The theorems of the delivery ledger at concrete data, and runs of its operations.
mod Restarts
use swarph_cli.Prelude.{
  ℕ, ◌≤◌, ◌+◌, String, Option, none, some, Bool, true, false, List, [], ◌∷◌, ◌++◌, ◌==◌, ◌≡◌, ◌⊎◌,
  refl, arith, inl, inr, any, find, nat_eq, string_eq,
}
use swarph_cli.Prelude.Python.{Fields, str, int, null, field, end}
use swarph_cli.Delivery.Entries.{
  Eligibility, ServiceState, Obligation, eligible, ineligible, cannot_evaluate, unassigned, claimed,
  capacity_refused, owed, not_eligible, not_evaluated, over_capacity, expired, Job, Entry,
  DeliveryQueue, Result, done, refused, entry_of, provenance,
}
use swarph_cli.Delivery.Fixtures.{test_entry, two_entries, two_entries-IsLedger}
use swarph_cli.Delivery.Operations.{active, claim_for_service, new_job, enqueue}
use swarph_cli.Delivery.Receipts.{remove_on_receipt}
use swarph_cli.Delivery.Steps.{claim, settle, serve}
use swarph_cli.Delivery.Invariant.{IsLedger, serve-IsLedger}
use swarph_cli.Delivery.Obligations.{is_owed, Settled, serve-is_owed, token, serve-token}
use swarph_cli.Delivery.Claims.{Granted, claim_for_service-Granted}
use swarph_cli.Delivery.Reconcile.{reconcile_spool_receipt-again}
use swarph_cli.Prelude.Dicts.{IsDict}
use swarph_cli.Prelude.Python.{dict}
use swarph_cli.Prelude.{◌&&◌}
use swarph_cli.Delivery.Entries.{is_eligible, is_claimable}
use swarph_cli.Delivery.Receipts.{reconcile_spool_receipt}
use swarph_cli.Delivery.Capacity.{bound, serve-active}

abbrev receipt : Fields
receipt = field "job_id" (str "dm-7") (
    field "source_dm_id" (int 7) (
      field "destination_peer" (str "bob") (
        field "fencing_token" (int 1) (
          field "output_digest"
            (str "00000000000000000000000000000000000000000000000000000000000000ff")
            (field "reply_provenance" (provenance "bob") end)))))

settled_run : (remove_on_receipt receipt two_entries).0 ≡ done tt
unfolding remove_on_receipt swarph_cli.Delivery.Receipts.is_receipt entry_of find
    swarph_cli.Delivery.Receipts.active_job swarph_cli.Delivery.Receipts.agree
    swarph_cli.Delivery.Entries.job_dict
settled_run = refl

claim_run :
    (claim_for_service 8 "bob" 2 two_entries).0
    ≡ done (some (new_job "ada" "bob" (test_entry 8 unassigned none)))
unfolding claim_for_service entry_of find swarph_cli.Delivery.Operations.claim_entry active
    swarph_cli.Prelude.count
claim_run = refl

seven_owed : is_owed 7 two_entries ≡ true
unfolding any
seven_owed = refl

serve-is_owed_example :
    (is_owed 7 (serve (settle receipt) two_entries) ≡ true)
    ⊎ Settled (settle receipt) 7 two_entries (serve (settle receipt) two_entries)
serve-is_owed_example = serve-is_owed (settle receipt) two_entries 7 seven_owed

serve-active_example :
    active (serve (claim 8 "bob" 2) two_entries).live.pending
    ≤ bound (claim 8 "bob" 2) (active two_entries.live.pending)
serve-active_example = serve-active (claim 8 "bob" 2) two_entries

serve-IsLedger_example : IsLedger (serve (claim 8 "bob" 2) two_entries)
serve-IsLedger_example = serve-IsLedger (claim 8 "bob" 2) two_entries two_entries-IsLedger

eight_before : entry_of 8 two_entries.live.pending ≡ some (test_entry 8 unassigned none)
unfolding entry_of find
eight_before = refl

abbrev served_entry : Entry
served_entry = test_entry 8 claimed (some (new_job "ada" "bob" (test_entry 8 unassigned none)))

eight_after : entry_of 8 (serve (claim 8 "bob" 2) two_entries).live.pending ≡ some served_entry
unfolding entry_of serve find claim_for_service swarph_cli.Delivery.Operations.claim_entry active
    swarph_cli.Prelude.count swarph_cli.Delivery.Operations.change swarph_cli.Prelude.update_first
    swarph_cli.Delivery.Operations.assign
eight_after = refl

serve-token_example : token none ≤ token served_entry.job
serve-token_example =
    serve-token (claim 8 "bob" 2) two_entries 8 (test_entry 8 unassigned none) served_entry
      two_entries-IsLedger eight_before eight_after

claim_for_service-Granted_example :
    (e : Entry) × (entry_of 8 two_entries.live.pending ≡ some e)
    × ((is_eligible e.eligibility && is_claimable e.obligation_state) ≡ true)
    × ((new_job "ada" "bob" (test_entry 8 unassigned none)).destination_peer ≡ "bob")
    × Granted 8 e
        (new_job "ada" "bob" (test_entry 8 unassigned none))
        two_entries
        (claim_for_service 8 "bob" 2 two_entries).1
claim_for_service-Granted_example =
    claim_for_service-Granted 8 "bob" 2 two_entries
      (new_job "ada" "bob" (test_entry 8 unassigned none)) claim_run

abbrev spool_receipt : Fields
spool_receipt = field "job_id" (str "dm-7") (
    field "source_dm_id" (int 7) (
      field "destination_peer" (str "bob") (
        field "fencing_token" (int 4) (
          field "output_digest"
            (str "00000000000000000000000000000000000000000000000000000000000000ff")
            (field "source_ref"
              (dict (
                field "queue_entry_id" (int 7)
                  (field "source_dm_id" (int 7) (field "queue_claim_fence" (int 1) end))))
              end)))))

spool_receipt-IsDict : IsDict spool_receipt
unfolding IsDict swarph_cli.Prelude.Python.get
spool_receipt-IsDict = (
  refl,
  tt,
  (
    refl,
    tt,
    (refl, tt, (refl, tt, (refl, tt, (refl, (refl, tt, (refl, tt, (refl, tt, tt))), tt)))),
  ),
)

reconcile_run : (reconcile_spool_receipt spool_receipt two_entries).0 ≡ done true
unfolding reconcile_spool_receipt swarph_cli.Delivery.Receipts.spool_ref entry_of find
    swarph_cli.Delivery.Receipts.active_job swarph_cli.Delivery.Receipts.fits_claim
reconcile_run = refl

reconcile_spool_receipt-again_example :
    let q = (reconcile_spool_receipt spool_receipt two_entries).1 in
    reconcile_spool_receipt spool_receipt q ≡ (done false, q)
reconcile_spool_receipt-again_example =
    reconcile_spool_receipt-again spool_receipt two_entries spool_receipt-IsDict
      two_entries-IsLedger reconcile_run
