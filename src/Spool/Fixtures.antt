-- ===== src/Spool/Fixtures.antt =====
-- A digest and a job for the tests of the spool of src/swarph_cli/peer_executor.py.
use swarph_cli.Prelude.{String, refl}
use swarph_cli.Prelude.Python.{Fields, int, str, end, field}
use swarph_cli.Delivery.Digest.{is_digest}
use swarph_cli.Spool.Files.{PeerSpool, empty_spool}
use swarph_cli.Spool.Results
use swarph_cli.Spool.Requests.{Request, cut, Run, here, next}
use swarph_cli.Spool.Steps.{HasDigests}

abbrev pub zeros : String
zeros = "0000000000000000000000000000000000000000000000000000000000000000"

-- A stand-in for SHA-256.
abbrev pub sha : String → String
sha text = zeros

pub sha-HasDigests : HasDigests sha
unfolding is_digest
sha-HasDigests text = refl

abbrev pub dm_ref : Fields
dm_ref = field "queue_entry_id" (int 7) (
    field "source_dm_id" (int 7)
      (field "queue_claim_fence" (int 1) (field "source_peer" (str "ada") end)))

abbrev pub dm_job : Fields
dm_job = field "schema_version" (int 1) (
    field "job_id" (str "dm-7") (
      field "source_dm_id" (int 7)
        (field "destination_peer" (str "bob") (field "delivery_ref" (str "r") end))))

abbrev pub produce : Request
produce = Request.produce_receipt "dm-7" "bob" 1 "hello" dm_ref zeros zeros

abbrev pub staged_spool : PeerSpool
staged_spool = cut sha 1 (Request.enqueue dm_job) empty_spool

abbrev pub held_spool : PeerSpool
held_spool = cut sha 2 (Request.claim "dm-7" "bob" 5) staged_spool

abbrev pub served_spool : PeerSpool
served_spool = cut sha 2 produce held_spool

abbrev pub dm_receipt : Fields
dm_receipt = Results.new_receipt sha "dm-7" "bob" 1 "hello" dm_ref zeros zeros (int 7)

pub held_spool-Run : Run sha empty_spool held_spool
held_spool-Run = next 2 (Request.claim "dm-7" "bob" 5) (next 1 (Request.enqueue dm_job) here)
