-- ===== src/Gateway/Tasks/Chains.antt =====
-- The parent chains of tasks (`_chain_depth` of src/swarph_cli/gateway/server.py).
use swarph_cli.Prelude.{
  ℕ, zero, suc, ◌+◌, ◌<◌, ◌≤◌, Option, none, some, true, false, List, [], ◌∷◌, ◌++◌, ◌==◌,
  string_eq, nat_eq, option_eq, find, any, ◌≡◌, refl, ap, sym, ◌∙◌, arith, Bool-cases, Option-cases,
  inl, inr, In, find-In, any-find, any-In, In-append, find-append, find-append_none, any-append,
}
use swarph_cli.Gateway.Db.{Db, Task}
use swarph_cli.Gateway.TaskQueue.{task_by_id, chain_depth}

-- The table of tasks with its counter: ids are below the counter, a task's parent stands in the
-- table, and the chain from a task to its root has three tasks at most, however far it is walked.
pub record IsChained (ts : List Task) (next : ℕ) : Type 0 where
  pub below : (t : Task) → In t ts → t.id < next
  pub parents :
      (t : Task) (p : ℕ) → In t ts → t.parent_task_id ≡ some p → any (λ u. u.id == p) ts ≡ true
  pub short : (limit : ℕ) (t : Task) → In t ts → chain_depth limit ts (some t.id) ≤ 3

abbrev pub HasChains : Db → Type 0
HasChains db = IsChained db.tasks db.next_task

pub chain_depth-none : (limit : ℕ) (ts : List Task) → chain_depth limit ts none ≡ 0
unfolding chain_depth
chain_depth-none zero ts = refl
chain_depth-none (suc limit) ts = refl

-- One step of the walk.
pub chain_depth-suc :
    (limit id : ℕ) (ts : List Task) (t : Task)
    → task_by_id id ts ≡ some t
    → chain_depth (suc limit) ts (some id) ≡ suc (chain_depth limit ts t.parent_task_id)
unfolding chain_depth
chain_depth-suc limit id ts t e = ground arith

pub chain_depth-missing :
    (limit id : ℕ) (ts : List Task) → task_by_id id ts ≡ none → chain_depth limit ts (some id) ≡ 0
unfolding chain_depth
chain_depth-missing zero id ts e = refl
chain_depth-missing (suc limit) id ts e = ground arith

-- A walk that ended before its bound is not longer under another.
chain_depth-bound :
    (limit other : ℕ) (ts : List Task) (c : Option ℕ)
    → chain_depth limit ts c < limit
    → chain_depth other ts c ≤ chain_depth limit ts c
unfolding chain_depth
chain_depth-bound zero other ts c h = absurd (omega arith)
chain_depth-bound (suc limit) zero ts c h = omega arith
chain_depth-bound (suc limit) (suc other) ts none h = omega arith
chain_depth-bound (suc limit) (suc other) ts (some id) h = elim (Option-cases (task_by_id id ts)) [
  | inl e ↦ ground arith
  | inr (t, e) ↦ ground (arith, chain_depth-bound limit other ts t.parent_task_id)
]

-- A chain inside the table is not changed by one more row.
chain_depth-append :
    (limit id : ℕ) (ts : List Task) (new : Task) (next : ℕ)
    → IsChained ts next
    → any (λ u. u.id == id) ts ≡ true
    → chain_depth limit (ts ++ new ∷ []) (some id) ≡ chain_depth limit ts (some id)
chain_depth-append zero id ts new next c h = unfold chain_depth in refl
chain_depth-append (suc limit) id ts new next c h =
    let (t, e) = any-find _ ts h in
    rw (chain_depth-suc limit id ts t e) (
      rw (chain_depth-suc limit id (ts ++ new ∷ []) t (find-append _ ts (new ∷ []) t e)) (
        ap suc (elim (Option-cases t.parent_task_id) [
          | inl q ↦ rw q (chain_depth-none limit (ts ++ new ∷ []) ∙ sym (chain_depth-none limit ts))
          | inr (p, q) ↦
              rw q (chain_depth-append limit p ts new next c (c.parents t p (find-In _ ts t e).0 q))
        ])))

module _ (ts : List Task) (next : ℕ) (c : IsChained ts next) where
  -- The counter's id is new.
  next-fresh : any (λ u. u.id == next) ts ≡ false
  next-fresh = elim (Bool-cases (any (λ u. u.id == next) ts)) [
    | inl e ↦
        let (t, f) = any-find _ ts e in
        let (m, q) = find-In _ ts t f in let b = c.below t m in absurd (ground arith)
    | inr e ↦ e
  ]

  -- What `task_create` and the table's foreign key ask of a new row.
  abbrev pub MayJoin : Task → Type 0
  MayJoin new =
      (new.id ≡ next)
      × ((p : ℕ) → new.parent_task_id ≡ some p → any (λ u. u.id == p) ts ≡ true)
      × (chain_depth 10 ts new.parent_task_id < 3)

  old_short :
      (new t : Task) (limit : ℕ) → In t ts → chain_depth limit (ts ++ new ∷ []) (some t.id) ≤ 3
  old_short new t limit m =
      rw (chain_depth-append limit t.id ts new next c (any-In _ ts t m (ground arith)))
        (c.short limit t m)

  parent_short :
      (new : Task) (parent : Option ℕ) (limit : ℕ)
      → ((p : ℕ) → parent ≡ some p → any (λ u. u.id == p) ts ≡ true)
      → chain_depth 10 ts parent < 3
      → chain_depth limit (ts ++ new ∷ []) parent ≤ 2
  parent_short new none limit known d = rw chain_depth-none (omega arith)
  parent_short new (some p) limit known d =
      rw (chain_depth-append limit p ts new next c (known p refl))
        (omega (arith, chain_depth-bound 10 limit ts (some p) (omega arith)))

  fresh_at : (id : ℕ) → id ≡ next → any (λ u. u.id == id) ts ≡ false
  fresh_at id e = rw e next-fresh

  find_new : (new : Task) → find (λ u. u.id == new.id) (new ∷ []) ≡ some new
  unfolding find
  find_new new = ground arith

  new_short :
      (new : Task) (limit : ℕ) → MayJoin new → chain_depth limit (ts ++ new ∷ []) (some new.id) ≤ 3
  new_short new zero join = unfold chain_depth in omega arith
  new_short new (suc limit) join =
      rw
        (chain_depth-suc limit new.id (ts ++ new ∷ []) new
          (find-append_none _ ts (new ∷ []) (fresh_at new.id join.0) ∙ find_new new))
        (omega (arith, parent_short new new.parent_task_id limit join.1 join.2))

  -- The table with one more row.
  pub IsChained-append : (new : Task) → MayJoin new → IsChained (ts ++ new ∷ []) (next + 1)
  IsChained-append new join = record {
    below = λ t m. elim (In-append ts (new ∷ []) t m) [
      | inl old ↦ omega (arith, c.below t old)
      | inr (inl e) ↦ rw e (omega (arith, join.0))
      | inr (inr n) ↦ absurd n
    ];
    parents = λ t p m q. rw (any-append _ ts (new ∷ [])) (elim (In-append ts (new ∷ []) t m) [
      | inl old ↦ rw (c.parents t p old q)
      | inr (inl e) ↦ rw (join.1 p (rw e at q))
      | inr (inr n) ↦ absurd n
    ]);
    short = λ limit t m. elim (In-append ts (new ∷ []) t m) [
      | inl old ↦ old_short new t limit old
      | inr (inl e) ↦ rw e (new_short new limit join)
      | inr (inr n) ↦ absurd n
    ];
  }
