-- ===== src/Gateway/Fixtures.antt =====
-- Test data for the gateway of src/swarph_cli/gateway/server.py: a configuration, a database and rows.
use swarph_cli.Prelude.{
  ℕ, String, Option, none, some, Bool, true, [], ◌∷◌, ◌==◌, if◌then◌else◌, string_eq,
}
use swarph_cli.Prelude.Python.{null, end, field, str}
use swarph_cli.Gateway.Db.{Db, Peer, Task, pending, CouncilJob, text, JobStatus}
use swarph_cli.Gateway.Config.{Config}

abbrev pub test_config : Config
test_config = record {
  auth_token = "shared";
  commander_token = "";
  meta_edge_public_key = some "key";
  verify_jwt = λ t. if t == "a.b.c" then some (field "sub" (str "u1") end) else none;
  sha256 = λ t. t;
  caller_binding_enforce = true;
  revocation_enforce = true;
  group_admins = "ada" ∷ [];
  subscription_chat_max_per_day = 2;
}

abbrev pub test_task : ℕ → ℕ → Task
test_task id priority = record {
  id = id;
  task_id = "t";
  category = "doc";
  status = pending;
  priority = priority;
  cost_cap_usd = none;
  not_before = none;
  added_by = "ada";
  added_at = id;
  claimed_by = none;
  claimed_at = none;
  completed_at = none;
  attempts = 0;
  last_error = none;
  spec_json = "{}";
  output_path = none;
  cost_actual_usd = none;
  parent_task_id = none;
  thread_id = none;
}

abbrev pub test_job : ℕ → JobStatus → Option String → CouncilJob
test_job id status worker = record {
  id = id;
  debate_id = "d";
  role = "r1_defender";
  prompt = text "p";
  model = "m";
  status = status;
  claimed_by = worker;
  attempts = 1;
  max_attempts = 2;
  created_at = 5;
  claimed_at = some 6;
  completed_at = some 7;
  result_json = some "{}";
  error = none;
}

abbrev pub test_peer : String → Bool → Peer
test_peer name ratified = record {
  name = name;
  capabilities = none;
  enabled = true;
  ratified = ratified;
  url = "http://peer";
  registered_at = 1;
  last_seen = none;
  ratified_at = none;
  ratified_by = none;
  ratification_reason = none;
  owner = null;
}

abbrev pub empty_db : Db
empty_db = record {
  tasks = [];
  next_task = 1;
  thread_uuids = [];
  council_jobs = [];
  next_job = 1;
  peers = [];
  peer_tokens = [];
  revocations = [];
  ratifications = [];
  binding_events = [];
  messages = [];
  channels = [];
  channel_members = [];
  groups = [];
  group_members = [];
  group_grants = [];
  group_audit = [];
}

-- Two tasks, the second of a higher priority.
abbrev pub two_tasks : Db
two_tasks = record empty_db { tasks = test_task 1 3 ∷ test_task 2 5 ∷ []; next_task = 3 }

-- A job that is done and one that `bob` holds.
abbrev pub two_jobs : Db
two_jobs = record empty_db {
  council_jobs =
      test_job 1 JobStatus.done (some "bob") ∷ test_job 2 JobStatus.claimed (some "bob") ∷ [];
  next_job = 3;
}

-- A peer with a token and a right through ALL, an invite channel and an announce channel.
abbrev pub one_peer : Db
one_peer = record empty_db {
  peers = test_peer "bob" true ∷ [];
  peer_tokens =
      record { peer = "bob"; key_generation = 1; token_sha256 = "secret"; minted_at = 1 } ∷ [];
  channels =
      record {
        name = "war-room";
        kind = "group";
        visibility = "invite";
        description = none;
        created_by = "ada";
        created_at = 1;
      }
      ∷ record {
        name = "announcements";
        kind = "announce";
        visibility = "open";
        description = none;
        created_by = "ada";
        created_at = 1;
      }
      ∷ [];
  channel_members =
      record {
        channel = "announcements";
        peer = "ada";
        wake_policy = "all";
        allow_broadcast = true;
        joined_at = 1;
      }
      ∷ [];
  group_grants =
      record {
        group = "ALL";
        grant_type = "quota";
        target = "read-board";
        level = "read";
        added_by = "ada";
        added_at = 1;
      }
      ∷ [];
}
