-- ===== src/Gateway/Council/Again.antt =====
-- The insert loop of `council_batch_post` of src/swarph_cli/gateway/server.py, run again.
use swarph_cli.Prelude.{
  ℕ, String, Bool, true, false, List, [], ◌∷◌, ◌≡◌, refl, sym, ap, subst, ◌∙◌, arith, string_eq,
  find, any, any-append, All, Bool-cases, inl, inr, eq_refl,
}
use swarph_cli.Gateway.Db.{Db}
use swarph_cli.Gateway.Monad.{Result, Handler, ok, http, pure, gets, ◌>>=◌}
use swarph_cli.Gateway.Frames.{Preserves, preserves_rules, Preserves-map_two}
use swarph_cli.Gateway.CouncilJobs.{
  CouncilJobSpec, is_job, new_job, insert_or_ignore, BatchEntry, insert_one, insert_all,
}

-- The job of this debate and role is in the table.
abbrev HasJob : String → String → Db → Type 0
HasJob debate role db = any (is_job debate role) db.council_jobs ≡ true

insert-HasJob :
    (now : ℕ) (debate other role : String) (s : CouncilJobSpec)
    → Preserves (HasJob other role) (insert_or_ignore now debate s)
unfolding insert_or_ignore
insert-HasJob now debate other role s = record {
  at = λ db h. elim (Bool-cases (any (is_job debate s.role) db.council_jobs)) [
    | inl e ↦ rw e h
    | inr e ↦ rw e (any-append (is_job other role) db.council_jobs _ ∙ ground (arith, h))
  ];
}

insert_one-HasJob :
    (now : ℕ) (debate other role : String) (s : CouncilJobSpec)
    → Preserves (HasJob other role) (insert_one now debate s)
unfolding insert_one
insert_one-HasJob now debate other role s = search (preserves_rules, insert-HasJob) depth 9

insert_all-HasJob :
    (now : ℕ) (debate other role : String) (specs : List CouncilJobSpec)
    → Preserves (HasJob other role) (insert_all now debate specs)
unfolding insert_all
insert_all-HasJob now debate other role [] = search preserves_rules
insert_all-HasJob now debate other role (s ∷ rest) =
    Preserves-map_two (insert_one now debate s) (insert_all now debate rest) ◌∷◌
      (insert_one-HasJob now debate other role s) (insert_all-HasJob now debate other role rest)

bind_run :
    {A B : Type 0} (m : Handler A) (f : A → Handler B) (db db' : Db) (a : A)
    → m db ≡ (ok a, db')
    → (m >>= f) db ≡ f a db'
bind_run m f db db' a h = ap (λ run. ((λ _. run) >>= f) db) h

-- The body of the loop, from a run of its INSERT.
insert_one-run :
    (now : ℕ) (debate : String) (s : CouncilJobSpec) (db db' : Db) (created : Bool)
    → insert_or_ignore now debate s db ≡ (ok created, db')
    → insert_one now debate s db ≡ (
      ok (record {
        role = s.role;
        row = find (is_job debate s.role) db'.council_jobs;
        created = created;
      }),
      db',
    )
unfolding insert_one
insert_one-run now debate s db db' created h =
    bind_run (insert_or_ignore now debate s)
      (λ created. gets (λ db. find (is_job debate s.role) db.council_jobs) >>= λ row.
        pure (record { role = s.role; row = row; created = created }))
      db db' created h

insert-known :
    (now : ℕ) (debate : String) (s : CouncilJobSpec) (db : Db)
    → HasJob debate s.role db
    → insert_or_ignore now debate s db ≡ (ok false, db)
unfolding insert_or_ignore
insert-known now debate s db h = rw h refl

insert-made :
    (now : ℕ) (debate : String) (s : CouncilJobSpec) (db : Db)
    → HasJob debate s.role (insert_or_ignore now debate s db).1
unfolding insert_or_ignore any new_job
insert-made now debate s db = elim (Bool-cases (any (is_job debate s.role) db.council_jobs)) [
  | inl e ↦ rw e e
  | inr e ↦ rw e (
      any-append (is_job debate s.role) db.council_jobs _
      ∙ ground (arith, eq_refl debate, eq_refl s.role))
]

-- The INSERT never raises.
insert-ok :
    (now : ℕ) (debate : String) (s : CouncilJobSpec) (db : Db)
    → (created : Bool) × (insert_or_ignore now debate s db
        ≡ (ok created, (insert_or_ignore now debate s db).1))
unfolding insert_or_ignore
insert-ok now debate s db = elim (Bool-cases (any (is_job debate s.role) db.council_jobs)) [
  | inl e ↦ (false, rw e refl)
  | inr e ↦ (true, rw e refl)
]

-- A run of the loop from a run of its first round.
insert_all-step :
    (now : ℕ) (debate : String) (s : CouncilJobSpec) (rest : List CouncilJobSpec) (db db' : Db)
    (entry : BatchEntry)
    → insert_one now debate s db ≡ (ok entry, db')
    → insert_all now debate (s ∷ rest) db
      ≡ (insert_all now debate rest >>= λ entries. pure (entry ∷ entries)) db'
unfolding insert_all
insert_all-step now debate s rest db db' entry h =
    bind_run (insert_one now debate s)
      (λ entry. insert_all now debate rest >>= λ entries. pure (entry ∷ entries)) db db' entry h

map_run :
    {A B : Type 0} (run : Result A × Db) (g : A → B) (db : Db)
    → (((λ _. run) >>= λ a. pure (g a)) db).1 ≡ run.1
map_run (ok a, db') g db = refl
map_run (http code, db') g db = refl

-- After a batch each of its jobs is in the table.
pub insert_all-made :
    (now : ℕ) (debate : String) (specs : List CouncilJobSpec) (db : Db)
    → All (λ (s : CouncilJobSpec). HasJob debate s.role (insert_all now debate specs db).1) specs
insert_all-made now debate [] db = tt
insert_all-made now debate (s ∷ rest) db =
    let db1 = (insert_or_ignore now debate s db).1 in
    let (created, e) = insert-ok now debate s db in
    let step =
      insert_all-step now debate s rest db db1 _ (insert_one-run now debate s db db1 created e) in
    let left = ap (λ run. run.1) step ∙ map_run (insert_all now debate rest db1) _ db1 in
    subst (λ d. All (λ (x : CouncilJobSpec). HasJob debate x.role d) (s ∷ rest)) (sym left)
      (
        (insert_all-HasJob now debate debate s.role rest).at db1 (insert-made now debate s db),
        insert_all-made now debate rest db1,
      )

-- The reply to a batch that finds all its jobs.
pub insert_all-known :
    (now : ℕ) (debate : String) (specs : List CouncilJobSpec) (db : Db)
    → All (λ (s : CouncilJobSpec). HasJob debate s.role db) specs
    → (entries : List BatchEntry) × (insert_all now debate specs db ≡ (ok entries, db))
      × All (λ (e : BatchEntry). e.created ≡ false) entries
insert_all-known now debate [] db h = ([], unfold insert_all in refl, tt)
insert_all-known now debate (s ∷ rest) db h =
    let (entries, run, old) = insert_all-known now debate rest db h.1 in
    let one = insert_one-run now debate s db db false (insert-known now debate s db h.0) in
    let entry : BatchEntry = record {
      role = s.role;
      row = find (is_job debate s.role) db.council_jobs;
      created = false;
    } in
    (
      entry ∷ entries,
      insert_all-step now debate s rest db db entry one
          ∙ bind_run (insert_all now debate rest) (λ es. pure (entry ∷ es)) db db entries run,
      (refl, old),
    )
