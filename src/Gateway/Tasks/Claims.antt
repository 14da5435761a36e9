-- ===== src/Gateway/Tasks/Claims.antt =====
-- Sequences of claims by any workers (`task_claim` of src/swarph_cli/gateway/server.py).
use swarph_cli.Prelude.{
  ℕ, String, Option, none, some, true, false, List, [], ◌∷◌, ◌==◌, nat_eq, update_where, Bool-cases,
  Option-cases, ◌⊎◌, inl, inr, In, All, update_where-In, ◌≡◌, ◌≢◌, refl, sym, arith,
}
use swarph_cli.Gateway.Db.{Db, Task, in_progress}
use swarph_cli.Gateway.Monad.{ok, http}
use swarph_cli.Gateway.TaskQueue.{is_claimable, next_claimable, claimed_row, set_tasks, claim_next}
use swarph_cli.Gateway.Tasks.Order.{next_claimable-In}

-- Every row of this id is being worked on.
IsHeld : ℕ → List Task → Type 0
IsHeld id ts = (t : Task) → In t ts → t.id ≡ id → t.status ≡ in_progress

held-not_claimable :
    (now : ℕ) (category : Option String) (t : Task)
    → t.status ≡ in_progress
    → is_claimable now category t ≡ false
unfolding is_claimable
held-not_claimable now category t e = rw e

-- The table after the UPDATE of a claim.
abbrev taken_from : ℕ → String → ℕ → List Task → List Task
taken_from now worker id ts = update_where (λ u. u.id == id) (claimed_row now worker) ts

IsHeld-taken :
    (now : ℕ) (worker : String) (id : ℕ) (ts : List Task) → IsHeld id (taken_from now worker id ts)
unfolding IsHeld claimed_row
IsHeld-taken now worker id ts t m e =
    let (s, n, q) = update_where-In _ (claimed_row now worker) ts t m in
    elim (Bool-cases (s.id == id)) [ inl same ↦ ground arith | inr other ↦ ground arith ]

IsHeld-keeps :
    (now : ℕ) (worker : String) (id held : ℕ) (ts : List Task)
    → IsHeld held ts
    → IsHeld held (taken_from now worker id ts)
unfolding IsHeld claimed_row
IsHeld-keeps now worker id held ts h t m e =
    let (s, n, q) = update_where-In _ (claimed_row now worker) ts t m in
    elim (Bool-cases (s.id == id)) [ inl same ↦ ground arith | inr other ↦ ground (arith, h s n) ]

-- A request to claim: the time, the worker and the category asked for.
pub record ClaimRequest : Type 0 where
  pub now : ℕ
  pub worker : String
  pub category : Option String

-- The ids that a sequence of claims hands out.
pub claimed_ids : List ClaimRequest → Db → List ℕ
claimed_ids [] db = []
claimed_ids (r ∷ rest) db =
    let (reply, db') = claim_next r.now r.worker r.category db in
    elim reply [
      | ok (some t) ↦ t.id ∷ claimed_ids rest db'
      | ok none ↦ claimed_ids rest db'
      | http _ ↦ claimed_ids rest db'
    ]

-- What a claim comes to: nothing, or a claimable row taken.
claim_next-cases :
    (r : ClaimRequest) (db : Db)
    → (claim_next r.now r.worker r.category db ≡ (ok none, db))
      ⊎ ((t : Task) × (claim_next r.now r.worker r.category db ≡ (
        ok (some (claimed_row r.now r.worker t)),
        record db { tasks = taken_from r.now r.worker t.id db.tasks },
      ))
          × In t db.tasks
          × (is_claimable r.now r.category t ≡ true))
unfolding claim_next set_tasks
claim_next-cases r db = elim (Option-cases (next_claimable r.now r.category db.tasks)) [
  | inl e ↦ inl (ground arith)
  | inr (t, e) ↦
      let (m, q) = next_claimable-In r.now r.category db.tasks t e in inr (t, ground arith, m, q)
]

claimed_ids-none :
    (r : ClaimRequest) (rs : List ClaimRequest) (db db' : Db)
    → claim_next r.now r.worker r.category db ≡ (ok none, db')
    → claimed_ids (r ∷ rs) db ≡ claimed_ids rs db'
unfolding claimed_ids
claimed_ids-none r rs db db' e = ground arith

claimed_ids-some :
    (r : ClaimRequest) (rs : List ClaimRequest) (db db' : Db) (t : Task)
    → claim_next r.now r.worker r.category db ≡ (ok (some t), db')
    → claimed_ids (r ∷ rs) db ≡ t.id ∷ claimed_ids rs db'
unfolding claimed_ids
claimed_ids-some r rs db db' t e = ground arith

claimed_id : (now : ℕ) (worker : String) (t : Task) → (claimed_row now worker t).id ≡ t.id
unfolding claimed_row
claimed_id now worker t = refl

-- A claimable row is not held.
not_held :
    (r : ClaimRequest) (t : Task) (ts : List Task) (held : ℕ)
    → IsHeld held ts
    → In t ts
    → is_claimable r.now r.category t ≡ true
    → held ≢ t.id
unfolding IsHeld
not_held r t ts held h m q e = cc (q, held-not_claimable r.now r.category t (h t m (sym e)))

-- Ids that are held are handed out by no later claim.
claimed_ids-fresh :
    (rs : List ClaimRequest) (db : Db) (held : ℕ)
    → IsHeld held db.tasks
    → All (λ id. held ≢ id) (claimed_ids rs db)
claimed_ids-fresh [] db held h = unfold claimed_ids in tt
claimed_ids-fresh (r ∷ rs) db held h = elim (claim_next-cases r db) [
  | inl e ↦ rw (claimed_ids-none r rs db db e) (claimed_ids-fresh rs db held h)
  | inr (t, e, m, q) ↦
      let db' = record db { tasks = taken_from r.now r.worker t.id db.tasks } in
      rw (claimed_ids-some r rs db db' (claimed_row r.now r.worker t) e) (
        rw (claimed_id r.now r.worker t) (not_held r t db.tasks held h m q),
        claimed_ids-fresh rs db' held (IsHeld-keeps r.now r.worker t.id held db.tasks h),
      )
]

abbrev pub Distinct : List ℕ → Type 0
Distinct [] = Unit
Distinct (x ∷ xs) = All (λ y. x ≢ y) xs × Distinct xs

-- However many workers claim, at whatever times and for whatever categories, no task is handed out
-- twice.
pub claimed_ids-Distinct : (rs : List ClaimRequest) (db : Db) → Distinct (claimed_ids rs db)
claimed_ids-Distinct [] db = unfold claimed_ids in tt
claimed_ids-Distinct (r ∷ rs) db = elim (claim_next-cases r db) [
  | inl e ↦ rw (claimed_ids-none r rs db db e) (claimed_ids-Distinct rs db)
  | inr (t, e, m, q) ↦
      let db' = record db { tasks = taken_from r.now r.worker t.id db.tasks } in
      rw (claimed_ids-some r rs db db' (claimed_row r.now r.worker t) e) (
        rw (claimed_id r.now r.worker t)
            (claimed_ids-fresh rs db' t.id (IsHeld-taken r.now r.worker t.id db.tasks)),
        claimed_ids-Distinct rs db',
      )
]
