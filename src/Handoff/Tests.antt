-- ===== src/Handoff/Tests.antt =====
-- A message of the ledger, served to its end (src/swarph_cli/peer_staging.py).
use swarph_cli.Prelude.{none, some, true, find, count, any, ◌≡◌, refl, arith}
use swarph_cli.Prelude.Python.{str, keys_within, get_or_null, value_eq}
use swarph_cli.Prelude.Json.{dumps}
use swarph_cli.Delivery.Entries.{unassigned, entry_of, Job, done}
use swarph_cli.Delivery.Fixtures.{test_entry, two_entries, two_entries-IsLedger}
use swarph_cli.Delivery.Operations.{active, new_job, claim_entry, claim_for_service}
use swarph_cli.Delivery.Digest.{is_digest}
use swarph_cli.Spool.Files.{empty_spool}
use swarph_cli.Spool.Envelopes.{is_file_name, is_job, canonical_id}
use swarph_cli.Spool.Fixtures.{zeros, sha, sha-HasDigests}
use swarph_cli.Handoff.{source_ref, envelope}
use swarph_cli.Handoff.Served.{IsAcknowledged, stage-IsAcknowledged}

abbrev granted : Job
granted = new_job "ada" "bob" (test_entry 8 unassigned none)

claim_run : (claim_for_service 8 "bob" 2 two_entries).0 ≡ done (some granted)
unfolding claim_for_service entry_of find claim_entry active count
claim_run = refl

valid_run : is_job (envelope granted) ≡ true
unfolding is_job envelope new_job get_or_null keys_within value_eq canonical_id is_file_name any
    dumps source_ref
valid_run = refl

sender : canonical_id (str granted.source_peer) ≡ some granted.source_peer
unfolding canonical_id is_file_name new_job any
sender = refl

zeros_digest : is_digest (str zeros) ≡ true
unfolding is_digest
zeros_digest = refl

stage-IsAcknowledged_example :
    IsAcknowledged sha 8 2 5 "hello" zeros "bob" two_entries empty_spool granted
stage-IsAcknowledged_example =
    stage-IsAcknowledged sha 8 2 5 "bob" "hello" zeros two_entries empty_spool granted
      sha-HasDigests two_entries-IsLedger (omega arith) claim_run valid_run sender zeros_digest
      (record {
        not_pending = refl;
        not_running = refl;
        no_claim = refl;
        no_output = refl;
        no_receipt = refl;
      })
