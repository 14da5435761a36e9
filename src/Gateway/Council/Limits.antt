-- ===== src/Gateway/Council/Limits.antt =====
-- The daily cap on the subscription chats of the council queue in src/swarph_cli/gateway/server.py.
use swarph_cli.Prelude.{
  ℕ, ◌+◌, ◌≤◌, String, Option, none, some, Bool, true, false, ◌&&◌, List, [], ◌∷◌, ltb, leb,
  if◌then◌else◌, string_eq, nat_eq, option_eq, find, any, count, count-append_one, ◌≡◌, refl, sym,
  subst, arith, inl, inr, Bool-cases,
}
use swarph_cli.Gateway.Db.{Db, CouncilJob}
use swarph_cli.Gateway.Monad.{Result, Handler, ok, http, pure, gets, raise_if, ◌>>=◌, ◌>>◌}
use swarph_cli.Gateway.Frames.{Preserves, preserves_rules, Preserves-bind, Preserves-raise_if}
use swarph_cli.Gateway.Config.{Config}
use swarph_cli.Gateway.Auth.{AuthContext, check_caller_binding}
use swarph_cli.Gateway.Auth.Binding.{check_caller_binding_frame}
use swarph_cli.Gateway.Council.{check_enqueuer, council_batch_post}
use swarph_cli.Gateway.CouncilJobs.{
  CouncilJobSpec, spec_refused, is_subscription, day_start, used_since, requested, is_job, new_job,
  insert_or_ignore, BatchEntry, insert_one, insert_all,
}

-- The part of one job in the count of requested subscription chats.
abbrev weight : CouncilJobSpec → ℕ
weight s = if is_subscription s.role then 1 else 0

weight_and : (a b : Bool) (n : ℕ) → n + (if a && b then 1 else 0) ≤ n + (if a then 1 else 0)
weight_and true true n = omega arith
weight_and true false n = omega arith
weight_and false b n = omega arith

-- `m` adds at most `k` subscription chats to those made since `start`.
record Adds {A : Type 0} (start k : ℕ) (m : Handler A) : Type 0 where
  at : (db : Db) → used_since start (m db).1.council_jobs ≤ used_since start db.council_jobs + k

module _ {A B : Type 0} (start : ℕ) where
  Adds-rest :
      (r : Result A) (f : A → Handler B) (db db1 : Db) (k l : ℕ)
      → used_since start db1.council_jobs ≤ used_since start db.council_jobs + k
      → ((a : A) → Adds start l (f a))
      → used_since start (((λ _. (r, db1)) >>= f) db).1.council_jobs
        ≤ used_since start db.council_jobs + (k + l)
  Adds-rest (ok a) f db db1 k l h g = let h1 = (g a).at db1 in omega arith
  Adds-rest (http code) f db db1 k l h g = omega arith

  Adds-bind :
      (k l : ℕ) (m : Handler A) (f : A → Handler B)
      → Adds start k m
      → ((a : A) → Adds start l (f a))
      → Adds start (k + l) (m >>= f)
  Adds-bind k l m f a g = record {
    at = λ db. let (r, db1) = m db in Adds-rest r f db db1 k l (a.at db) g;
  }

  Adds-then :
      (k : ℕ) (m : Handler A) (f : A → Handler B)
      → Adds start k m
      → ((a : A) → Adds start 0 (f a))
      → Adds start k (m >>= f)
  Adds-then k m f a g = record { at = λ db. let h = (Adds-bind k 0 m f a g).at db in omega arith }

insert-Adds :
    (start now : ℕ) (debate : String) (s : CouncilJobSpec)
    → Adds start (weight s) (insert_or_ignore now debate s)
unfolding insert_or_ignore used_since new_job
insert-Adds start now debate s = record {
  at = λ db. elim (Bool-cases (any (is_job debate s.role) db.council_jobs)) [
    | inl e ↦ rw e (omega arith)
    | inr e ↦
        rw
          (
            e,
            count-append_one (λ (j : CouncilJob). is_subscription j.role && leb start j.created_at)
                db.council_jobs (new_job now debate s db.next_job),
          )
          (weight_and (is_subscription s.role) (leb start now) _)
  ];
}

insert_one-Adds :
    (start now : ℕ) (debate : String) (s : CouncilJobSpec)
    → Adds start (weight s) (insert_one now debate s)
unfolding insert_one
insert_one-Adds start now debate s =
    Adds-then start (weight s) (insert_or_ignore now debate s)
      (λ created. gets (λ db. find (is_job debate s.role) db.council_jobs) >>= λ row.
        pure (record { role = s.role; row = row; created = created }))
      (insert-Adds start now debate s) (λ created. record { at = λ db. omega arith })

insert_all-Adds :
    (start now : ℕ) (debate : String) (specs : List CouncilJobSpec)
    → Adds start (requested specs) (insert_all now debate specs)
unfolding insert_all requested count
insert_all-Adds start now debate [] = record { at = λ db. omega arith }
insert_all-Adds start now debate (s ∷ rest) = record {
  at = λ db.
      let h =
        (Adds-bind start (weight s) (requested rest) (insert_one now debate s)
            (λ entry. insert_all now debate rest >>= λ entries. pure (entry ∷ entries))
            (insert_one-Adds start now debate s)
            (λ entry.
              Adds-then start (requested rest) (insert_all now debate rest)
                (λ entries. pure (entry ∷ entries)) (insert_all-Adds start now debate rest)
                (λ entries. record { at = λ db. omega arith }))).at
          db in
      h;
}

-- The queue has at most `cap` subscription chats since `start`.
abbrev Within : ℕ → ℕ → Db → Type 0
Within start cap db = used_since start db.council_jobs ≤ cap

under_cap :
    (used asked cap : ℕ)
    → (ltb 0 asked && ltb cap (used + asked)) ≡ false
    → used ≤ cap
    → used + asked ≤ cap
under_cap used asked cap e h = ground arith

module _ (cfg : Config) (now : ℕ) (auth : AuthContext) where
  abbrev cap : ℕ
  cap = cfg.subscription_chat_max_per_day

  enqueuer-Within :
      (start : ℕ) (from_node : Option String)
      → Preserves (Within start cap) (check_enqueuer cfg now auth from_node)
  unfolding check_enqueuer
  enqueuer-Within start none = search preserves_rules
  enqueuer-Within start (some node) = search (preserves_rules, binding-Within)
    where
      binding-Within :
          (actor site : String) (enforce : Bool)
          → Preserves (Within start cap) (check_caller_binding cfg now auth actor site enforce)
      binding-Within actor site enforce = record {
        at = λ db q.
            subst (Within start cap)
              (sym (check_caller_binding_frame cfg now auth actor site enforce db)) q;
      }

  capped-Within :
      (debate : String) (specs : List CouncilJobSpec) (db : Db)
      → Within (day_start now) cap db
      → (refused : Bool)
      → (ltb 0 (requested specs)
          && ltb cap (used_since (day_start now) db.council_jobs + requested specs))
        ≡ refused
      → Within (day_start now) cap ((raise_if refused 429 >> insert_all now debate specs) db).1
  capped-Within debate specs db h true e = h
  capped-Within debate specs db h false e =
      let added = (insert_all-Adds (day_start now) now debate specs).at db in
      let room = under_cap _ (requested specs) cap e h in omega arith

  -- What the batch does once its jobs are in order.
  abbrev capped : String → List CouncilJobSpec → Handler (List BatchEntry)
  capped debate specs = gets (λ db. used_since (day_start now) db.council_jobs) >>= λ used.
      raise_if (ltb 0 (requested specs) && ltb cap (used + requested specs)) 429
      >> insert_all now debate specs

  -- A batch, whatever its jobs, its roles and its answer, never takes the day's subscription chats
  -- over the configured cap if they were not over it before.
  pub council_batch_post-cap :
      (from_node : Option String) (debate : String) (specs : List CouncilJobSpec) (db : Db)
      → used_since (day_start now) db.council_jobs ≤ cfg.subscription_chat_max_per_day
      → used_since
          (day_start now)
          (council_batch_post cfg now auth from_node debate specs db).1.council_jobs
        ≤ cfg.subscription_chat_max_per_day
  unfolding council_batch_post
  council_batch_post-cap from_node debate specs db h =
      (Preserves-bind {P = Within (day_start now) cap} (check_enqueuer cfg now auth from_node)
          (λ _. raise_if (any spec_refused specs) 400 >> capped debate specs)
          (enqueuer-Within (day_start now) from_node)
          (λ _.
            Preserves-bind (raise_if (any spec_refused specs) 400) (λ _. capped debate specs)
              (Preserves-raise_if (any spec_refused specs) 400)
              (λ _. record { at = λ db h. capped-Within debate specs db h _ refl }))).at
        db h
