-- ===== src/Gateway/Council/Order.antt =====
-- Which job a claim takes (`council_claim_post` in src/swarph_cli/gateway/server.py).
use swarph_cli.Prelude.{
  All-In, ℕ, ◌<◌, ◌≤◌, String, Option, none, some, false, List, [], ◌∷◌, ◌==◌, find, In, ◌≡◌, ap,
  sym, subst, ◌∙◌, arith, inl, inr, Bool-cases, find-In, nat_eq, update_where,
}
use swarph_cli.Gateway.Db.{Db, CouncilJob}
use swarph_cli.Gateway.Db.JobStatus.{pending}
use swarph_cli.Gateway.Monad.{Handler, ok, gets, ◌>>=◌}
use swarph_cli.Gateway.Config.{Config}
use swarph_cli.Gateway.Auth.{AuthContext, check_caller_binding}
use swarph_cli.Gateway.CouncilJobs.{has_status, next_pending, take_job, set_jobs, claimed_row}
use swarph_cli.Gateway.Council.{council_claim_post}
use swarph_cli.Gateway.Council.Valid.{HasQueue, Rising}
use swarph_cli.Gateway.Council.Guards.{bind_ok, binding-Keeps}

-- Where ids rise, the first pending job has the least id.
next_pending-least :
    (jobs : List CouncilJob) (j k : CouncilJob)
    → Rising jobs
    → next_pending jobs ≡ some j
    → In k jobs
    → k.status ≡ pending
    → j.id ≤ k.id
unfolding next_pending find
next_pending-least [] j k r e m s = absurd m
next_pending-least (x ∷ xs) j k r e m s = elim (Bool-cases (has_status pending x)) [
  | inl b ↦
      let first : x ≡ j = ground arith in
      elim m [
        | inl q ↦
            let same : j.id ≡ k.id = ap (λ (i : CouncilJob). i.id) (sym first ∙ sym q) in
            omega arith
        | inr n ↦
            let lt = All-In (λ i. x.id < i.id) xs k r.0 n in
            let same : x.id ≡ j.id = ap (λ (i : CouncilJob). i.id) first in omega arith
      ]
  | inr b ↦ elim m [
    | inl q ↦
        absurd (
          let p : x.status ≡ pending = ap (λ (i : CouncilJob). i.status) (sym q) ∙ s in
          ground arith)
    | inr n ↦ next_pending-least xs j k r.1 (ground arith) n s
  ]
]

In-updated :
    (f : CouncilJob → CouncilJob) (jobs : List CouncilJob) (j : CouncilJob)
    → In j jobs
    → In (f j) (update_where (λ k. k.id == j.id) f jobs)
unfolding update_where
In-updated f [] j m = absurd m
In-updated f (x ∷ xs) j (inl q) = inl (ground arith)
In-updated f (x ∷ xs) j (inr m) = inr (In-updated f xs j m)

-- What the empty queue and the taken job answer.
take_job-some :
    (now : ℕ) (worker : String) (o : Option CouncilJob) (j : CouncilJob) (db : Db)
    → (take_job now worker o db).0 ≡ ok (some j)
    → (o ≡ some j)
      × ((take_job now worker o db).1.council_jobs
          ≡ update_where (λ k. k.id == j.id) (claimed_row now worker) db.council_jobs)
unfolding take_job set_jobs
take_job-some now worker none j db h = cc
take_job-some now worker (some i) j db h =
    let same : i ≡ j = cc in
    (
      ap some same,
      ap
          (λ (m : CouncilJob).
            update_where (λ k. k.id == m.id) (claimed_row now worker) db.council_jobs)
          same,
    )

-- In a queue that is in order, a claim that returns a job returns a pending one whose id is at most
-- that of any pending job, and afterwards the table holds that job as the worker's claim.
pub council_claim_post-least :
    (cfg : Config) (now : ℕ) (auth : AuthContext) (worker : String) (db : Db) (j k : CouncilJob)
    → HasQueue db
    → (council_claim_post cfg now auth worker db).0 ≡ ok (some j)
    → In k db.council_jobs
    → k.status ≡ pending
    → (j.status ≡ pending)
      × (j.id ≤ k.id)
      × In (claimed_row now worker j) (council_claim_post cfg now auth worker db).1.council_jobs
unfolding council_claim_post next_pending
council_claim_post-least cfg now auth worker db j k q h m s =
    let check = check_caller_binding cfg now auth worker "council_claim" false in
    let rest : Unit {0} → Handler (Option CouncilJob) =
      λ _. gets (λ db. next_pending db.council_jobs) >>= take_job now worker in
    let (a, passed, run) = bind_ok check rest db (some j) h in
    let same = (binding-Keeps cfg now auth worker "council_claim" false).at db in
    let (taken, after) = take_job-some now worker _ j (check db).1 (ap (λ r. r.0) (sym run) ∙ h) in
    let found : next_pending db.council_jobs ≡ some j = ap next_pending (sym same) ∙ taken in
    let (n, is_pending) = find-In (has_status pending) db.council_jobs j found in
    (
      ground arith,
      next_pending-least db.council_jobs j k q.rising found m s,
      subst (In (claimed_row now worker j))
          (sym (
            ap (λ r. r.1.council_jobs) run
            ∙ after
            ∙ ap (update_where (λ i. i.id == j.id) (claimed_row now worker)) same))
          (In-updated (claimed_row now worker) db.council_jobs j n),
    )
