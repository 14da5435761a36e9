-- ===== src/Gateway/Registry/Orphans.antt =====
-- The rows of peer_ratifications that name a peer, and the foreign key that keeps the peer
-- (src/swarph_cli/gateway/server.py and schema.sql).
use swarph_cli.Prelude.{
  ℕ, String, some, Bool, true, false, not, List, [], ◌∷◌, ◌++◌, ◌==◌, ◌≡◌, inl, inr, refl, sym,
  subst, arith, Bool-cases, string_eq, eq_iff, find, any, update_where, where_rows,
}
use swarph_cli.Gateway.Db.{Db, Peer, Ratification}
use swarph_cli.Gateway.PeerRows.{PatchRequest, has_name, ratify_row, has_orphans}
use swarph_cli.Gateway.Registry.Listed.{ratified_in}

abbrev pub names : String → Ratification → Bool
names n r = r.peer == n

-- The peer is listed as ratified, and the audit of ratifications names it.
pub record IsAudited (n : String) (db : Db) : Type 0 where
  pub ratified : ratified_in n db.peers ≡ true
  pub audited : any (names n) db.ratifications ≡ true

pub any-append :
    (n : String) (rows : List Ratification) (r : Ratification)
    → any (names n) rows ≡ true
    → any (names n) (rows ++ r ∷ []) ≡ true
unfolding any
any-append n [] r h = ground arith
any-append n (x ∷ rows) r h = let rest = any-append n rows r in ground arith

pub any-last :
    (n : String) (rows : List Ratification) (r : Ratification)
    → r.peer ≡ n
    → any (names n) (rows ++ r ∷ []) ≡ true
unfolding any
any-last n [] r h = let e = (eq_iff r.peer n).1 h in ground arith
any-last n (x ∷ rows) r h = let rest = any-last n rows r h in ground arith

pub find-any :
    (n : String) (ps : List Peer) (p : Peer)
    → find (has_name n) ps ≡ some p
    → any (has_name n) ps ≡ true
unfolding find any
find-any n [] p h = ground arith
find-any n (x ∷ ps) p h = let rest = find-any n ps p in ground arith

pub ratified_in-any :
    (n : String) (ps : List Peer) → ratified_in n ps ≡ true → any (has_name n) ps ≡ true
unfolding ratified_in any
ratified_in-any n [] h = ground arith
ratified_in-any n (p ∷ ps) h = let rest = ratified_in-any n ps in ground arith

pub ratified_in-ratify_row :
    (n : String) (q : Peer → Bool) (now : ℕ) (req : PatchRequest) (ps : List Peer)
    → ratified_in n ps ≡ true
    → ratified_in n (update_where q (ratify_row now req) ps) ≡ true
unfolding ratified_in update_where ratify_row
ratified_in-ratify_row n q now req [] h = h
ratified_in-ratify_row n q now req (p ∷ ps) h =
    let rest = ratified_in-ratify_row n q now req ps in
    elim (Bool-cases (q p)) [ inl a ↦ rw a (ground arith) | inr a ↦ rw a (ground arith) ]

pub ratified_in-ratified :
    (n : String) (now : ℕ) (req : PatchRequest) (ps : List Peer)
    → any (has_name n) ps ≡ true
    → ratified_in n (update_where (has_name n) (ratify_row now req) ps) ≡ true
unfolding ratified_in update_where ratify_row any
ratified_in-ratified n now req [] h = ground arith
ratified_in-ratified n now req (p ∷ ps) h =
    let rest = ratified_in-ratified n now req ps in
    elim (Bool-cases (p.name == n)) [ inl a ↦ rw a (rw a refl) | inr a ↦ rw a (ground arith) ]

pub where_rows-gone :
    (n : String) (ps : List Peer)
    → any (has_name n) (where_rows (λ p. not (has_name n p)) ps) ≡ false
unfolding any where_rows
where_rows-gone n [] = refl
where_rows-gone n (p ∷ ps) = let rest = where_rows-gone n ps in ground arith

pub has_orphans-named :
    (n : String) (rows : List Ratification) (before after : List Peer)
    → any (names n) rows ≡ true
    → any (has_name n) before ≡ true
    → any (has_name n) after ≡ false
    → has_orphans rows before after ≡ true
unfolding has_orphans any
has_orphans-named n [] before after h b a = h
has_orphans-named n (r ∷ rows) before after h b a =
    let rest = has_orphans-named n rows before after in
    elim (Bool-cases (r.peer == n)) [
      | inl e ↦
          let same = sym ((eq_iff r.peer n).0 e) in
          let b' = subst (λ x. any (has_name x) before ≡ true) same b in
          let a' = subst (λ x. any (has_name x) after ≡ false) same a in ground arith
      | inr e ↦ ground arith
    ]
