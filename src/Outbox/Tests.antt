-- ===== src/Outbox/Tests.antt =====
-- The outbox of src/swarph_cli/peer_service_reply.py with one reply.
use swarph_cli.Prelude.{suc, ◌≡◌, ◌≤◌, All, any, count, refl, string_eq, nat_eq, option_eq}
use swarph_cli.Prelude.Text.{strip}
use swarph_cli.Prelude.Python.{
  Fields, int, str, end, field, get, get_or_null, value_eq, keys_within, keys_are,
}
use swarph_cli.Prelude.Json.{dumps}
use swarph_cli.Delivery.Digest.{is_digest}
use swarph_cli.Spool.Files.{empty_spool, put, output_name, write_atomic, write_all}
use swarph_cli.Spool.Envelopes.{
  is_file_name, canonical_id, is_job, is_source_ref, has_receipt_fields, is_new_receipt,
  persisted_schema, envelope_digest,
}
use swarph_cli.Spool.Claims
use swarph_cli.Spool.Results
use swarph_cli.Spool.Results.{accepted_receipt}
use swarph_cli.Spool.Requests.{Request, writes, cut}
use swarph_cli.Spool.Fixtures.{zeros, sha, sha-HasDigests, dm_job, produce, served_spool}
use swarph_cli.Outbox.{
  Outbox, empty_outbox, perform, perform_all, reply_of, evidence, digest, source_peer, route,
  deliver, drain_one, drain_cut, Runs, here, call, drained, posted,
}
use swarph_cli.Outbox.Backed.{IsBacked, calls-IsBacked}
use swarph_cli.Outbox.Once.{has_key, interrupted, sent_once}

abbrev reply : Fields
reply = field "schema_version" (int 1) (
    field "job_id" (str "dm-7")
      (field "receipt_digest" (str zeros) (field "content" (str "hello") end)))

abbrev waiting : Outbox
waiting = record empty_outbox { pending = put "dm-7" reply empty_outbox.pending }

-- Sent once, and again after a crash.
abbrev sent_twice : Outbox
sent_twice = drain_cut sha 3 "dm-7" served_spool (drain_cut sha 1 "dm-7" served_spool waiting)

served_spool-Runs : Runs sha empty_spool empty_outbox served_spool sent_twice
served_spool-Runs = drained 3 "dm-7" (
    drained 1 "dm-7" (
      posted "dm-7" reply (
        call 2 produce
          (call 2 (Request.claim "dm-7" "bob" 5) (call 1 (Request.enqueue dm_job) here)))))

calls_run : count (has_key zeros) sent_twice.calls ≡ 2
unfolding count any drain_cut perform_all perform drain_one reply_of deliver source_peer route
    keys_are value_eq get_or_null get keys_within dumps is_digest write_all write_atomic output_name
    canonical_id is_file_name is_job envelope_digest has_receipt_fields is_new_receipt is_source_ref
    persisted_schema cut writes digest strip accepted_receipt Results.produce_receipt
    Results.held_job Results.held Claims.claim Claims.enqueue Claims.is_job_of Results.can_produce
    Results.finish Results.is_accepted Results.matches_files Results.new_output Results.new_receipt
    Claims.new_claim evidence
calls_run = refl

calls-IsBacked_example : All (IsBacked sha served_spool) sent_twice.calls
calls-IsBacked_example = calls-IsBacked sha served_spool sent_twice sha-HasDigests served_spool-Runs

sent_once_example : count (has_key zeros) sent_twice.calls ≤ suc (interrupted sha served_spool-Runs)
sent_once_example = sent_once sha zeros served_spool sent_twice served_spool-Runs
