-- ===== src/Gateway/Tasks/Order.antt =====
-- Which task a claim takes (`task_claim`).
use swarph_cli.Prelude.{
  ℕ, String, Option, none, some, Bool, true, false, All, ◌&&◌, List, [], ◌∷◌, string_eq, nat_eq,
  option_eq, ◌≡◌, refl, subst, arith, Bool-cases, Option-cases, inl, inr, In, where_rows-In,
  In-where_rows,
}
use swarph_cli.Gateway.Db.{Db, Task}
use swarph_cli.Gateway.Monad.{ok}
use swarph_cli.Gateway.TaskQueue.{
  is_claimable, comes_before, first_in_order, next_claimable, claimed_row, set_tasks, claim_next,
}

comes_before_irrefl : (a : Task) → comes_before a a ≡ false
unfolding comes_before
comes_before_irrefl a = ground arith

comes_before_asymm : (a b : Task) → comes_before a b ≡ true → comes_before b a ≡ false
unfolding comes_before
comes_before_asymm a b p = ground arith

not-comes_before_trans :
    (a b c : Task) → comes_before a b ≡ false → comes_before b c ≡ false → comes_before a c ≡ false
unfolding comes_before
not-comes_before_trans a b c p q = ground arith

first_in_order-none : (xs : List Task) → first_in_order xs ≡ none → xs ≡ []
unfolding first_in_order
first_in_order-none [] h = refl
first_in_order-none (x ∷ xs) h = ground arith

first_in_order-In : (xs : List Task) (t : Task) → first_in_order xs ≡ some t → In t xs
unfolding first_in_order
first_in_order-In [] t h = cc
first_in_order-In (x ∷ xs) t h = elim (Option-cases (first_in_order xs)) [
  | inl e ↦ inl (ground arith)
  | inr (u, e) ↦ elim (Bool-cases (comes_before u x)) [
    | inl b ↦ inr (first_in_order-In xs t (ground arith))
    | inr b ↦ inl (ground arith)
  ]
]

-- What the order of the rest puts first, against one more row in front.
first_in_order-cons :
    (x v t : Task) (xs : List Task)
    → first_in_order xs ≡ some v
    → first_in_order (x ∷ xs) ≡ some t
    → (comes_before x t ≡ false) × (comes_before v t ≡ false)
unfolding first_in_order
first_in_order-cons x v t xs e h = elim (Bool-cases (comes_before v x)) [
  | inl b ↦
      let same : v ≡ t = ground arith in
      rw (← same) (comes_before_asymm v x b, comes_before_irrefl v)
  | inr b ↦ let same : x ≡ t = ground arith in rw (← same) (comes_before_irrefl x, b)
]

-- Nothing comes strictly before what the order puts first.
first_in_order-first :
    (xs : List Task) (t u : Task) → first_in_order xs ≡ some t → In u xs → comes_before u t ≡ false
first_in_order-first [] t u h m = absurd m
first_in_order-first (x ∷ xs) t u h m = elim (Option-cases (first_in_order xs)) [
  | inl e ↦
      let only : xs ≡ [] = first_in_order-none xs e in
      let same : x ≡ t = unfold first_in_order in ground arith in
      rw (← same) (elim (subst (λ ys. In u (x ∷ ys)) only m) [
        | inl q ↦ rw q (comes_before_irrefl x)
        | inr n ↦ absurd n
      ])
  | inr (v, e) ↦
      let (front, rest) = first_in_order-cons x v t xs e h in
      elim m [
        | inl q ↦ rw q front
        | inr n ↦ not-comes_before_trans u v t (first_in_order-first xs v u e n) rest
      ]
]

not_both : (a b : Bool) → (a ≡ true → b ≡ false) → (a && b) ≡ false
not_both true b h = h refl
not_both false b h = refl

All-from : {A : Type 0} {P : A → Type 0} (xs : List A) → ((a : A) → In a xs → P a) → All P xs
All-from [] h = tt
All-from (x ∷ xs) h = (h x (inl refl), All-from xs λ a m. h a (inr m))

-- A claim takes a task that is pending, past its gate and of the category asked for, such that no
-- other claimable task has a higher priority, or the same priority and an earlier arrival.
pub claim_next-first :
    (now : ℕ) (worker : String) (category : Option String) (db db' : Db) (taken : Task)
    → claim_next now worker category db ≡ (ok (some taken), db')
    → (t : Task) × (taken ≡ claimed_row now worker t)
      × In t db.tasks
      × (is_claimable now category t ≡ true)
      × All (λ u. (is_claimable now category u && comes_before u t) ≡ false) db.tasks
unfolding claim_next set_tasks next_claimable
claim_next-first now worker category db db' taken h =
    elim (Option-cases (next_claimable now category db.tasks)) [
      | inl e ↦ absurd (ground arith)
      | inr (t, e) ↦
          let (m, q) =
            where_rows-In (is_claimable now category) db.tasks t (first_in_order-In _ t e) in
          (
            t,
            ground arith,
            m,
            q,
            All-from db.tasks λ u mu.
                not_both (is_claimable now category u) (comes_before u t) λ qu.
                  first_in_order-first _ t u e
                    (In-where_rows (is_claimable now category) db.tasks u mu qu),
          )
    ]

pub next_claimable-In :
    (now : ℕ) (category : Option String) (tasks : List Task) (t : Task)
    → next_claimable now category tasks ≡ some t
    → In t tasks × (is_claimable now category t ≡ true)
unfolding next_claimable
next_claimable-In now category tasks t e =
    where_rows-In (is_claimable now category) tasks t (first_in_order-In _ t e)
