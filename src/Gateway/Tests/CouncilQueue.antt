-- ===== src/Gateway/Tests/CouncilQueue.antt =====
-- The council queue of src/swarph_cli/gateway/server.py at concrete data.
use swarph_cli.Prelude.{
  ◌≤◌, ℕ, any, none, some, true, false, List, [], ◌∷◌, ◌==◌, ◌≡◌, ◌⊎◌, refl, arith, All, In, inl,
  inr, find, update_where, count, string_eq, nat_eq, option_eq,
}
use swarph_cli.Gateway.Db.{Db, CouncilJob, JobStatus}
use swarph_cli.Gateway.Monad.{ok, http}
use swarph_cli.Gateway.Fixtures.{test_config, test_job, two_jobs}
use swarph_cli.Gateway.Auth.{per_peer_token, check_caller_binding}
use swarph_cli.Gateway.Council
use swarph_cli.Gateway.CouncilJobs
use swarph_cli.Gateway.Council.Valid.{HasQueue, serve-HasQueue}
use swarph_cli.Gateway.Council.Settled.{HasSettled, serve-HasSettled}
use swarph_cli.Gateway.Council.Limits.{council_batch_post-cap}
use swarph_cli.Gateway.Council.Guards.{council_complete_post-owner}
use swarph_cli.Gateway.Council.Order.{council_claim_post-least}
use swarph_cli.Gateway.Council.Reposted.{council_batch_post-again}

two_jobs-HasQueue : HasQueue two_jobs
two_jobs-HasQueue = record {
  rising = ((omega arith, tt), (tt, tt));
  below = (omega arith, (omega arith, tt));
  rows = (((7, refl), ("{}", refl)), (((("bob", refl), (6, refl), omega arith)), tt));
}

serve-HasQueue_example :
    HasQueue
      (Council.serve test_config 9
        (per_peer_token "bob" 1)
        (Council.complete 2 "bob" "{}")
        two_jobs).1
serve-HasQueue_example =
    serve-HasQueue test_config 9 (per_peer_token "bob" 1) (Council.complete 2 "bob" "{}") two_jobs
      two_jobs-HasQueue

two_jobs-HasSettled : HasSettled (test_job 1 JobStatus.done (some "bob")) two_jobs
two_jobs-HasSettled = record { queue = two_jobs-HasQueue; row = inl refl; settled = inl refl }

serve-HasSettled_example :
    HasSettled
      (test_job 1 JobStatus.done (some "bob"))
      (Council.serve test_config 9
        (per_peer_token "bob" 1)
        (Council.fail 1 "bob" "e" true)
        two_jobs).1
serve-HasSettled_example =
    serve-HasSettled (test_job 1 JobStatus.done (some "bob")) test_config 9 (per_peer_token "bob" 1)
      (Council.fail 1 "bob" "e" true) two_jobs two_jobs-HasSettled

abbrev chat : CouncilJobs.CouncilJobSpec
chat = record {
  role = "subscription_chat";
  prompt = "p";
  model = "m";
  purpose = some "demo";
  response_schema = none;
  system_prompt = none;
}

used_today : CouncilJobs.used_since (CouncilJobs.day_start 9) two_jobs.council_jobs ≤ 2
unfolding CouncilJobs.used_since CouncilJobs.day_start count
used_today = omega arith

council_batch_post-cap_example :
    CouncilJobs.used_since
      (CouncilJobs.day_start 9)
      (Council.council_batch_post test_config 9
        (per_peer_token "bob" 1)
        none
        "d2"
        (chat ∷ [])
        two_jobs).1.council_jobs
    ≤ 2
council_batch_post-cap_example =
    council_batch_post-cap test_config 9 (per_peer_token "bob" 1) none "d2" (chat ∷ []) two_jobs
      used_today

complete_run :
    (Council.council_complete_post test_config 9 (per_peer_token "bob" 1) 2 "bob" "[]" two_jobs).0
    ≡ ok tt
unfolding Council.council_complete_post check_caller_binding CouncilJobs.claimed_job
    CouncilJobs.claim_verdict find CouncilJobs.write_done CouncilJobs.set_jobs
complete_run = refl

council_complete_post-owner_example :
    (j : CouncilJob) × (find (λ k. k.id == 2) two_jobs.council_jobs ≡ some j)
    × (j.status ≡ JobStatus.claimed)
    × (j.claimed_by ≡ some "bob")
    × ((Council.council_complete_post test_config 9
          (per_peer_token "bob" 1)
          2
          "bob"
          "[]"
          two_jobs).1.council_jobs
        ≡ update_where (λ k. k.id == 2) (CouncilJobs.done_row 9 "[]") two_jobs.council_jobs)
council_complete_post-owner_example =
    council_complete_post-owner test_config 9 (per_peer_token "bob" 1) 2 "bob" "[]" two_jobs
      complete_run

first_post :
    (Council.council_batch_post test_config 9
      (per_peer_token "bob" 1)
      (some "bob")
      "d3"
      (chat ∷ [])
      two_jobs).0
    ≡ ok (
        record { role = chat.role; row = some (CouncilJobs.new_job 9 "d3" chat 3); created = true }
        ∷ [])
unfolding Council.council_batch_post Council.check_enqueuer check_caller_binding
    CouncilJobs.insert_all CouncilJobs.insert_one CouncilJobs.insert_or_ignore any find
    CouncilJobs.spec_refused CouncilJobs.requested count CouncilJobs.used_since CouncilJobs.new_job
first_post = refl

council_batch_post-again_example :
    let first =
      Council.council_batch_post test_config 9
        (per_peer_token "bob" 1)
        (some "bob")
        "d3"
        (chat ∷ [])
        two_jobs in
    let again =
      Council.council_batch_post test_config 12
        (per_peer_token "eve" 1)
        none
        "d3"
        (chat ∷ [])
        first.1 in
    (again.1.council_jobs ≡ first.1.council_jobs)
    × (((code : ℕ) × (again.0 ≡ http code))
        ⊎ ((reply : List CouncilJobs.BatchEntry) × (again.0 ≡ ok reply)
            × All (λ (e : CouncilJobs.BatchEntry). e.created ≡ false) reply))
council_batch_post-again_example =
    council_batch_post-again test_config 9 12 (per_peer_token "bob" 1) (per_peer_token "eve" 1)
      (some "bob") none "d3" (chat ∷ []) two_jobs _ first_post

abbrev three_jobs : Db
three_jobs = record two_jobs {
  council_jobs =
      test_job 1 JobStatus.claimed (some "bob")
      ∷ test_job 2 JobStatus.pending none
      ∷ test_job 3 JobStatus.pending none
      ∷ [];
  next_job = 4;
}

three_jobs-HasQueue : HasQueue three_jobs
three_jobs-HasQueue = record {
  rising = ((omega arith, (omega arith, tt)), ((omega arith, tt), (tt, tt)));
  below = (omega arith, (omega arith, (omega arith, tt)));
  rows = ((("bob", refl), (6, refl), omega arith), (tt, (tt, tt)));
}

claim_run :
    (Council.council_claim_post test_config 9 (per_peer_token "bob" 1) "bob" three_jobs).0
    ≡ ok (some (test_job 2 JobStatus.pending none))
unfolding Council.council_claim_post check_caller_binding CouncilJobs.next_pending find
    CouncilJobs.take_job CouncilJobs.set_jobs
claim_run = refl

council_claim_post-least_example :
    (JobStatus.pending ≡ JobStatus.pending)
    × (2 ≤ 3)
    × In
        (CouncilJobs.claimed_row 9 "bob" (test_job 2 JobStatus.pending none))
        (Council.council_claim_post test_config 9
          (per_peer_token "bob" 1)
          "bob"
          three_jobs).1.council_jobs
council_claim_post-least_example =
    council_claim_post-least test_config 9 (per_peer_token "bob" 1) "bob" three_jobs
      (test_job 2 JobStatus.pending none) (test_job 3 JobStatus.pending none) three_jobs-HasQueue
      claim_run (inr (inr (inl refl))) refl
