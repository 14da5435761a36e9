-- ===== src/Gateway/Council/Rows.antt =====
-- The rows that the guards of the council queue in src/swarph_cli/gateway/server.py find.
use swarph_cli.Prelude.{
  All-In, ℕ, ◌<◌, String, Option, none, some, Bool, true, false, List, [], ◌∷◌, ◌++◌, map, ◌==◌,
  string_eq, nat_eq, option_eq, find, any, update_where, In, ◌≡◌, refl, ap, sym, ◌∙◌, arith, inl,
  inr, Bool-cases, eq_iff, find-In,
}
use swarph_cli.Gateway.Db.{Db, CouncilJob}
use swarph_cli.Gateway.Db.JobStatus.{claimed}
use swarph_cli.Gateway.Monad.{Result, Handler, ok, http, ◌>>=◌}
use swarph_cli.Gateway.CouncilJobs.{claim_verdict, claimed_job, has_id}
use swarph_cli.Gateway.Council.Valid.{Rising}

-- Rows of one id are one row.
pub Rising-unique :
    (jobs : List CouncilJob) (a b : CouncilJob)
    → Rising jobs
    → In a jobs
    → In b jobs
    → a.id ≡ b.id
    → a ≡ b
Rising-unique [] a b r m n e = absurd m
Rising-unique (j ∷ js) a b r (inl p) (inl q) e = p ∙ sym q
Rising-unique (j ∷ js) a b r (inl p) (inr n) e =
    let lt = All-In (λ k. j.id < k.id) js b r.0 n in
    absurd (let same : j.id ≡ b.id = ap (λ (k : CouncilJob). k.id) (sym p) ∙ e in omega arith)
Rising-unique (j ∷ js) a b r (inr m) (inl q) e =
    let lt = All-In (λ k. j.id < k.id) js a r.0 m in
    absurd (let same : j.id ≡ a.id = ap (λ (k : CouncilJob). k.id) (sym q) ∙ sym e in omega arith)
Rising-unique (j ∷ js) a b r (inr m) (inr n) e = Rising-unique js a b r.1 m n e

pub In-other :
    {A : Type 0} (p : A → Bool) (f : A → A) (xs : List A) (a : A)
    → In a xs
    → p a ≡ false
    → In a (update_where p f xs)
unfolding update_where
In-other p f [] a m e = m
In-other p f (x ∷ xs) a (inl q) e = inl (ground arith)
In-other p f (x ∷ xs) a (inr m) e = inr (In-other p f xs a m e)

pub has_id-In :
    (rows : List CouncilJob) (id : ℕ)
    → has_id (map (λ (j : CouncilJob). j.id) rows) id ≡ true
    → (j : CouncilJob) × In j rows × (j.id ≡ id)
unfolding has_id any
has_id-In [] id h = cc
has_id-In (j ∷ js) id h = elim (Bool-cases (j.id == id)) [
  | inl e ↦ (j, inl refl, ground arith)
  | inr e ↦ let (k, m, q) = has_id-In js id (ground arith) in (k, inr m, q)
]

pub claim_verdict-ok :
    (o : Option CouncilJob) (worker : String) (j : CouncilJob)
    → claim_verdict o worker ≡ ok j
    → (o ≡ some j) × (j.status ≡ claimed) × (j.claimed_by ≡ some worker)
unfolding claim_verdict
claim_verdict-ok none worker j h = cc
claim_verdict-ok (some k) worker j h = ground (arith, eq_iff k.claimed_by (some worker))

-- The guards of complete and fail, from the side of what follows them.
pub claimed_job_then :
    {A : Type 0} (P : Db → Type 0) (id : ℕ) (worker : String) (f : CouncilJob → Handler A) (db : Db)
    → P db
    → ((j : CouncilJob)
        → find (λ k. k.id == id) db.council_jobs ≡ some j
        → j.status ≡ claimed
        → j.claimed_by ≡ some worker
        → P (f j db).1)
    → P ((claimed_job id worker >>= f) db).1
unfolding claimed_job
claimed_job_then {A} P id worker f db h next = go (claim_verdict own worker) refl
  where
    own : Option CouncilJob
    own = find (λ k. k.id == id) db.council_jobs

    go : (r : Result CouncilJob) → claim_verdict own worker ≡ r → P (((λ _. (r, db)) >>= f) db).1
    go (ok j) e = let (q, s, w) = claim_verdict-ok own worker j e in next j q s w
    go (http code) e = h

pub In-left : {A : Type 0} (xs ys : List A) (a : A) → In a xs → In a (xs ++ ys)
In-left [] ys a h = absurd h
In-left (x ∷ xs) ys a (inl e) = inl e
In-left (x ∷ xs) ys a (inr m) = inr (In-left xs ys a m)

-- A row found by the id of `t` is `t`.
pub found_is :
    (jobs : List CouncilJob) (t j : CouncilJob) (id : ℕ)
    → Rising jobs
    → In t jobs
    → find (λ k. k.id == id) jobs ≡ some j
    → t.id ≡ id
    → j ≡ t
found_is jobs t j id r m e q =
    let (n, same) = find-In _ jobs j e in
    Rising-unique jobs j t r n m ((eq_iff j.id id).0 same ∙ sym q)
