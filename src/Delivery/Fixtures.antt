-- ===== src/Delivery/Fixtures.antt =====
-- A delivery ledger of src/swarph_cli/delivery_queue.py for the tests.
use swarph_cli.Prelude.{ℕ, Option, none, some, true, [], ◌∷◌, refl, arith, any, nat_eq, string_eq}
use swarph_cli.Prelude.Python.{str, null}
use swarph_cli.Delivery.Entries.{
  ServiceState, eligible, unassigned, claimed, owed, Job, Entry, DeliveryQueue,
}
use swarph_cli.Delivery.Invariant.{IsLedger}

abbrev pub test_entry : ℕ → ServiceState → Option Job → Entry
test_entry id service job = record {
  id = id;
  from = str "ada";
  kind = "question";
  thread_id = null;
  content = "c";
  wake = true;
  queued_at = 1;
  eligibility = eligible;
  eligibility_reason = "ok";
  obligation_state = owed;
  service_state = service;
  job = job;
  expiry_reason = none;
  capacity_refusal = none;
}

abbrev pub test_job : Job
test_job = record {
  job_id = "dm-7";
  source_dm_id = 7;
  source_peer = "ada";
  destination_peer = "bob";
  fencing_token = 1;
}

-- A message in service and one that waits.
abbrev pub two_entries : DeliveryQueue
two_entries = record {
  live = record {
    pending = test_entry 7 claimed (some test_job) ∷ test_entry 8 unassigned none ∷ [];
    receipts = [];
    deferred_ticks = 0;
  };
  file = record {
    pending = test_entry 7 claimed (some test_job) ∷ test_entry 8 unassigned none ∷ [];
    receipts = [];
    deferred_ticks = 0;
  };
}

pub two_entries-IsLedger : IsLedger two_entries
unfolding any
two_entries-IsLedger = record {
  unique = (refl, (refl, tt));
  entries = ((test_job, refl, refl, omega arith), (tt, tt));
  saved = refl;
}
