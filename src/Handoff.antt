-- ===== src/Handoff.antt =====
-- Between the ledger and the spool: `PeerSpoolStager` of src/swarph_cli/peer_staging.py and
-- `PeerReceiptReconciler` of src/swarph_cli/peer_reconciliation.py.
pub mod Steps
pub mod Served
mod Tests
use swarph_cli.Prelude.{ℕ, String, Option, none, some, Bool, false, List, []}
use swarph_cli.Prelude.Python.{Fields, int, str, dict, end, field}
use swarph_cli.Prelude.Json.{dumps}
use swarph_cli.Delivery.Entries.{Job, DeliveryQueue, Result, done, refused}
use swarph_cli.Delivery.Operations.{claim_for_service}
use swarph_cli.Delivery.Receipts.{reconcile_spool_receipt}
use swarph_cli.Spool.Files.{PeerSpool, Write}
use swarph_cli.Spool.Claims.{enqueue}
use swarph_cli.Spool.Results.{accepted_receipt}

-- The provenance of a claim.
unfoldable pub source_ref : Job → Fields
source_ref j = field "queue_entry_id" (int j.source_dm_id) (
    field "source_dm_id" (int j.source_dm_id) (
      field "queue_claim_fence" (int j.fencing_token)
        (field "source_peer" (str j.source_peer) end)))

-- The job that the spool is given: no content of the message.
unfoldable pub envelope : Job → Fields
envelope j = field "schema_version" (int 1) (
    field "job_id" (str j.job_id) (
      field "source_dm_id" (int j.source_dm_id) (
        field "destination_peer" (str j.destination_peer)
          (field "delivery_ref" (str (dumps (dict (source_ref j)))) end))))

-- What a call answers, the ledger after it, and its writes to the spool.
pub record Staged : Type 0 where
  pub answer : Result (Option Fields)
  pub queue : DeliveryQueue
  pub writes : List Write

abbrev pub stage_claim : Job → DeliveryQueue → PeerSpool → Staged
stage_claim j q s =
    let (placed, ws) = enqueue (envelope j) s in
    elim placed [
      | refused ↦ record { answer = refused; queue = q; writes = [] }
      | done _ ↦ record { answer = done (some (envelope j)); queue = q; writes = ws }
    ]

-- `stage`
unfoldable pub stage : ℕ → String → ℕ → DeliveryQueue → PeerSpool → Staged
stage dm_id destination max_active q s =
    let (claimed, q') = claim_for_service dm_id destination max_active q in
    elim claimed [
      | refused ↦ record { answer = refused; queue = q'; writes = [] }
      | done none ↦ record { answer = done none; queue = q'; writes = [] }
      | done (some j) ↦ stage_claim j q' s
    ]

-- `reconcile`
unfoldable pub reconcile :
    (String → String) → String → PeerSpool → DeliveryQueue → Result Bool × DeliveryQueue
reconcile sha256 job_id s q = elim (accepted_receipt sha256 job_id s) [
  | refused ↦ (refused, q)
  | done none ↦ (done false, q)
  | done (some r) ↦ reconcile_spool_receipt r q
]
