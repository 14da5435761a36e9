-- ===== src/Spool/Tests.antt =====
-- The spool of src/swarph_cli/peer_executor.py at concrete jobs.
use swarph_cli.Prelude.{some, ◌≡◌, refl, string_eq, nat_eq, any, option_eq}
use swarph_cli.Prelude.Python.{get, get_or_null, value_eq, keys_within, keys_are}
use swarph_cli.Prelude.Json.{dumps}
use swarph_cli.Prelude.Dicts.{IsDict}
use swarph_cli.Delivery.Entries.{done}
use swarph_cli.Delivery.Digest.{is_digest}
use swarph_cli.Spool.Files.{Claim, output_name, write_atomic, write_all}
use swarph_cli.Spool.Envelopes.{
  is_file_name, canonical_id, is_job, is_source_ref, has_receipt_fields, is_new_receipt,
  persisted_schema, envelope_digest,
}
use swarph_cli.Spool.Claims
use swarph_cli.Spool.Results
use swarph_cli.Spool.Results.{accepted_receipt}
use swarph_cli.Spool.Requests.{Request, writes, cut, here, next}
use swarph_cli.Spool.Fixtures.{
  zeros, sha, sha-HasDigests, dm_ref, dm_job, produce, staged_spool, held_spool, served_spool,
  dm_receipt, held_spool-Run,
}
use swarph_cli.Spool.Lasting.{Follows, accepted_receipt-lasts, claims-follow}
use swarph_cli.Spool.Phases.{Moves, phase, Run-Moves}
use swarph_cli.Spool.Retry.{produce_receipt-again}

claim_stands : held_spool.claims "dm-7" ≡ some (Claims.new_claim "dm-7" "bob" 1 5)
unfolding cut write_all writes Claims.claim canonical_id is_file_name any Claims.enqueue is_job
    keys_within value_eq get_or_null write_atomic Claims.is_job_of
claim_stands = refl

answer_stands : accepted_receipt sha "dm-7" served_spool ≡ done (some dm_receipt)
unfolding accepted_receipt canonical_id is_file_name any cut write_all writes
    Results.produce_receipt Results.held_job Results.held Claims.claim Claims.enqueue is_job
    keys_within value_eq get_or_null write_atomic is_digest dumps get keys_are Claims.is_job_of
    envelope_digest has_receipt_fields is_new_receipt is_source_ref persisted_schema output_name
    Results.can_produce Results.finish Results.is_accepted Results.matches_files Results.new_output
    Results.new_receipt Claims.new_claim
answer_stands = refl

answer_given :
    (Results.produce_receipt sha "dm-7" "bob" 1 "hello" dm_ref zeros zeros held_spool).0
    ≡ done dm_receipt
unfolding canonical_id is_file_name any cut write_all writes Results.produce_receipt
    Results.held_job Results.held Claims.claim Claims.enqueue is_job keys_within value_eq
    get_or_null write_atomic is_digest dumps get keys_are Claims.is_job_of envelope_digest
    is_source_ref Results.can_produce Results.finish Claims.new_claim
answer_given = refl

-- A takeover long after the lease, with the receipt there.
accepted_receipt-lasts_example :
    accepted_receipt sha "dm-7" (cut sha 1 (Request.reclaim "dm-7" "bob" 999999999) served_spool)
    ≡ done (some dm_receipt)
accepted_receipt-lasts_example =
    accepted_receipt-lasts sha served_spool
      (cut sha 1 (Request.reclaim "dm-7" "bob" 999999999) served_spool) "dm-7" dm_receipt
      sha-HasDigests (next 2 produce held_spool-Run)
      (next 1 (Request.reclaim "dm-7" "bob" 999999999) here) answer_stands

claims-follow_example :
    (d : Claim) × ((cut sha 1 (Request.reclaim "dm-7" "bob" 999999999) held_spool).claims "dm-7"
      ≡ some d)
    × Follows (Claims.new_claim "dm-7" "bob" 1 5) d
claims-follow_example =
    claims-follow sha held_spool (cut sha 1 (Request.reclaim "dm-7" "bob" 999999999) held_spool)
      "dm-7" (Claims.new_claim "dm-7" "bob" 1 5) sha-HasDigests held_spool-Run
      (next 1 (Request.reclaim "dm-7" "bob" 999999999) here) claim_stands

Run-Moves_example : Moves (phase "dm-7" staged_spool) (phase "dm-7" served_spool)
Run-Moves_example =
    Run-Moves sha "dm-7" staged_spool served_spool sha-HasDigests
      (next 1 (Request.enqueue dm_job) here)
      (next 2 produce (next 2 (Request.claim "dm-7" "bob" 5) here))

dm_ref-IsDict : IsDict dm_ref
unfolding IsDict get
dm_ref-IsDict = (refl, tt, (refl, tt, (refl, tt, (refl, tt, tt))))

produce_receipt-again_example :
    let t = cut sha 1 produce held_spool in
    ((Results.produce_receipt sha "dm-7" "bob" 1 "hello" dm_ref zeros zeros t).0 ≡ done dm_receipt)
    × (write_all (writes sha produce t) t ≡ write_all (writes sha produce held_spool) held_spool)
produce_receipt-again_example =
    produce_receipt-again sha "dm-7" "bob" 1 "hello" dm_ref zeros zeros held_spool dm_receipt 1
      sha-HasDigests dm_ref-IsDict answer_given
