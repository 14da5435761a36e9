-- ===== src/Gateway/Council/Reposted.antt =====
-- `POST /council-batch` of src/swarph_cli/gateway/server.py, asked again for a batch that it accepted.
use swarph_cli.Prelude.{
  ℕ, ◌+◌, String, Option, none, some, Bool, true, false, ◌&&◌, List, ltb, string_eq, ◌≡◌, ◌⊎◌, inl,
  inr, refl, sym, ap, subst, arith, any, All,
}
use swarph_cli.Gateway.Db.{Db, CouncilJob}
use swarph_cli.Gateway.Monad.{Result, Handler, ok, http, raise_if, gets, ◌>>=◌, ◌>>◌}
use swarph_cli.Gateway.Config.{Config}
use swarph_cli.Gateway.Auth.{AuthContext}
use swarph_cli.Gateway.Auth.Binding.{check_caller_binding_frame}
use swarph_cli.Gateway.Replies.{bind_reply}
use swarph_cli.Gateway.CouncilJobs.{
  CouncilJobSpec, BatchEntry, is_job, spec_refused, requested, used_since, day_start, insert_all,
}
use swarph_cli.Gateway.Council.{check_enqueuer, council_batch_post}
use swarph_cli.Gateway.Council.Again.{insert_all-made, insert_all-known}

-- Each job of the batch is in the table.
abbrev Have : String → List CouncilJobSpec → List CouncilJob → Type 0
Have debate specs jobs = All (λ (s : CouncilJobSpec). any (is_job debate s.role) jobs ≡ true) specs

abbrev Makes : String → List CouncilJobSpec → Result (List BatchEntry) → Db → Type 0
Makes debate specs r x =
    (entries : List BatchEntry) → r ≡ ok entries → Have debate specs x.council_jobs

-- The table is `jobs`, and the reply is an error or says of every job that it was not created.
abbrev Repeats : List CouncilJob → Result (List BatchEntry) → Db → Type 0
Repeats jobs r x =
    (x.council_jobs ≡ jobs)
    × (((code : ℕ) × (r ≡ http code))
        ⊎ ((entries : List BatchEntry) × (r ≡ ok entries)
            × All (λ (e : BatchEntry). e.created ≡ false) entries))

module _ (cfg : Config) (now : ℕ) (auth : AuthContext) where
  abbrev over_cap : List CouncilJobSpec → ℕ → Bool
  over_cap specs used =
      ltb 0 (requested specs) && ltb cfg.subscription_chat_max_per_day (used + requested specs)

  -- The handler after the caller binding.
  abbrev checked : String → List CouncilJobSpec → Handler (List BatchEntry)
  checked debate specs =
      raise_if (any spec_refused specs) 400
      >> (gets (λ db. used_since (day_start now) db.council_jobs) >>= λ used.
          raise_if (over_cap specs used) 429 >> insert_all now debate specs)

  -- What holds of the replies of the handler: of every error beside the table, and of the loop's.
  batch_reply :
      (from_node : Option String) (debate : String) (specs : List CouncilJobSpec) (db : Db)
      (Q : Result (List BatchEntry) → Db → Type 0)
      → let x = (check_enqueuer cfg now auth from_node db).1 in
        ((code : ℕ) → Q (http code) x)
        → Q (insert_all now debate specs x).0 (insert_all now debate specs x).1
        → let z = council_batch_post cfg now auth from_node debate specs db in Q z.0 z.1
  unfolding council_batch_post
  batch_reply from_node debate specs db Q h f =
      let x = (check_enqueuer cfg now auth from_node db).1 in
      bind_reply (check_enqueuer cfg now auth from_node) (λ _. checked debate specs) db Q h
        (λ _.
          bind_reply (raise_if (any spec_refused specs) 400)
            (λ _. gets (λ db. used_since (day_start now) db.council_jobs) >>= λ used.
              raise_if (over_cap specs used) 429 >> insert_all now debate specs)
            x Q h
            (λ _.
              bind_reply (raise_if (over_cap specs (used_since (day_start now) x.council_jobs)) 429)
                (λ _. insert_all now debate specs) x Q h (λ _. f)))

  enqueuer-jobs :
      (from_node : Option String) (db : Db)
      → (check_enqueuer cfg now auth from_node db).1.council_jobs ≡ db.council_jobs
  unfolding check_enqueuer
  enqueuer-jobs none db = refl
  enqueuer-jobs (some node) db =
      let kept =
        ap (λ (x : Db). x.council_jobs)
          (check_caller_binding_frame cfg now auth node "council_batch" true db) in
      ground arith

  made :
      (from_node : Option String) (debate : String) (specs : List CouncilJobSpec) (db : Db)
      → let z = council_batch_post cfg now auth from_node debate specs db in
        Makes debate specs z.0 z.1
  made from_node debate specs db =
      batch_reply from_node debate specs db (Makes debate specs)
        (λ code entries e. absurd (ground arith)) (λ entries e. insert_all-made now debate specs _)

  repeated :
      (from_node : Option String) (debate : String) (specs : List CouncilJobSpec) (db : Db)
      → Have debate specs db.council_jobs
      → let z = council_batch_post cfg now auth from_node debate specs db in
        Repeats db.council_jobs z.0 z.1
  repeated from_node debate specs db h =
      let x = (check_enqueuer cfg now auth from_node db).1 in
      let same = enqueuer-jobs from_node db in
      let (entries, run, old) =
        insert_all-known now debate specs x (subst (Have debate specs) (sym same) h) in
      batch_reply from_node debate specs db (Repeats db.council_jobs)
        (λ code. (same, inl (code, refl)))
        (subst (λ z. Repeats db.council_jobs z.0 z.1) (sym run) (same, inr (entries, refl, old)))

-- A batch that was answered, posted again at whatever time, by whoever, leaves the jobs of the queue as
-- they are: the reply is an error, such as the 429 of the day's cap, or it says of every job that it was not
-- created.
pub council_batch_post-again :
    (cfg : Config) (now later : ℕ) (auth other : AuthContext) (from_node from : Option String)
    (debate : String) (specs : List CouncilJobSpec) (db : Db) (entries : List BatchEntry)
    → (council_batch_post cfg now auth from_node debate specs db).0 ≡ ok entries
    → let first = council_batch_post cfg now auth from_node debate specs db in
      let again = council_batch_post cfg later other from debate specs first.1 in
      (again.1.council_jobs ≡ first.1.council_jobs)
      × (((code : ℕ) × (again.0 ≡ http code))
          ⊎ ((reply : List BatchEntry) × (again.0 ≡ ok reply)
              × All (λ (e : BatchEntry). e.created ≡ false) reply))
council_batch_post-again cfg now later auth other from_node from debate specs db entries h =
    let first = council_batch_post cfg now auth from_node debate specs db in
    repeated cfg later other from debate specs first.1
      (made cfg now auth from_node debate specs db entries h)
