-- ===== src/Gateway/Registry/Listed.antt =====
-- Whether a row of claude_peers is ratified, after the statements of src/swarph_cli/gateway/server.py.
use swarph_cli.Prelude.{
  ℕ, String, none, some, Bool, true, false, not, List, [], ◌∷◌, ◌++◌, ◌==◌, ◌≡◌, ◌≢◌, inl, inr,
  refl, sym, subst, ap, ◌∙◌, arith, Bool-cases, string_eq, eq_iff, find, any, update_where,
  where_rows, if◌then◌else◌,
}
use swarph_cli.Prelude.Python.{Value}
use swarph_cli.Gateway.Db.{Db, Peer}
use swarph_cli.Gateway.PeerRows.{RegisterRequest, has_name, peer_row, is_ratified, upsert_peer}

-- The first peer of the name is ratified.
unfoldable pub ratified_in : String → List Peer → Bool
ratified_in n [] = false
ratified_in n (p ∷ ps) = let rest = ratified_in n ps in if p.name == n then p.ratified else rest

pub is_ratified_lem : (n : String) (db : Db) → is_ratified n db ≡ ratified_in n db.peers
unfolding is_ratified peer_row find ratified_in
is_ratified_lem n db = go db.peers
  where
    go :
        (ps : List Peer)
        → (elim (find (has_name n) ps) [ none ↦ false | some p ↦ p.ratified ]) ≡ ratified_in n ps
    go [] = refl
    go (p ∷ ps) = let rest = go ps in ground arith

pub ratified_in-update_where :
    (n : String) (q : Peer → Bool) (f : Peer → Peer)
    → ((p : Peer) → (f p).name ≡ p.name)
    → ((p : Peer) → p.name ≡ n → q p ≡ true → (f p).ratified ≡ p.ratified)
    → (ps : List Peer) → ratified_in n (update_where q f ps) ≡ ratified_in n ps
unfolding ratified_in update_where
ratified_in-update_where n q f names same [] = refl
ratified_in-update_where n q f names same (p ∷ ps) =
    let rest = ratified_in-update_where n q f names same ps in
    elim (Bool-cases (q p)) [
      | inr a ↦ rw a (ground arith)
      | inl a ↦ elim (Bool-cases (p.name == n)) [
        | inl b ↦
            let kept = same p ((eq_iff p.name n).0 b) a in
            let also : ((f p).name == n) ≡ true = ap (λ x. x == n) (names p) ∙ b in
            rw a (rw (also, b) kept)
        | inr b ↦
            let also : ((f p).name == n) ≡ false = ap (λ x. x == n) (names p) ∙ b in
            rw a (rw (also, b) rest)
      ]
    ]

ratified_in-append :
    (n : String) (new : Peer) (ps : List Peer)
    → new.ratified ≡ false
    → ratified_in n (ps ++ new ∷ []) ≡ ratified_in n ps
unfolding ratified_in
ratified_in-append n new [] h = ground arith
ratified_in-append n new (p ∷ ps) h = let rest = ratified_in-append n new ps h in ground arith

-- The rows of one name are deleted, and another peer's are as they were.
pub ratified_in-other :
    (n name : String) (ps : List Peer)
    → name ≢ n
    → ratified_in n (where_rows (λ p. not (has_name name p)) ps) ≡ ratified_in n ps
unfolding ratified_in where_rows
ratified_in-other n name [] other = refl
ratified_in-other n name (p ∷ ps) other =
    let rest = ratified_in-other n name ps other in
    ground (arith, eq_iff p.name name, eq_iff p.name n)

pub ratified_in-where_rows :
    (n name : String) (ps : List Peer)
    → ratified_in n ps ≡ false
    → ratified_in n (where_rows (λ p. not (has_name name p)) ps) ≡ false
unfolding ratified_in where_rows
ratified_in-where_rows n name ps h = elim (Bool-cases (name == n)) [
  | inl a ↦
      subst (λ x. ratified_in n (where_rows (λ p. not (has_name x p)) ps) ≡ false)
        (sym ((eq_iff name n).0 a)) (gone ps)
  | inr a ↦ ratified_in-other n name ps (λ e. let h' = (eq_iff name n).1 e in cc) ∙ h
]
  where
    gone : (qs : List Peer) → ratified_in n (where_rows (λ p. not (has_name n p)) qs) ≡ false
    gone [] = refl
    gone (p ∷ qs) = let rest = gone qs in ground arith

pub ratified_in-upsert_peer :
    (n : String) (now : ℕ) (owner : Value) (req : RegisterRequest) (ps : List Peer)
    → ratified_in n (upsert_peer now owner req ps) ≡ ratified_in n ps
unfolding upsert_peer
ratified_in-upsert_peer n now owner req ps = elim (Bool-cases (any (has_name req.name) ps)) [
  | inl a ↦ rw (upsert_peer, a) (ratified_in-update_where n _ _ (λ p. refl) (λ p e h. refl) ps)
  | inr a ↦ rw (upsert_peer, a) (ratified_in-append n _ ps refl)
]
