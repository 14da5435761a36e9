-- ===== src/Gateway/Auth/Credentials.antt =====
-- What a successful `_authorize` rests on.
use swarph_cli.Prelude.{
  ℕ, String, Option, none, some, true, false, ◌&&◌, List, [], ◌∷◌, ◌++◌, ◌==◌, ◌≡◌, refl,
  if◌then◌else◌, string_eq, nat_eq, option_eq, eq_iff, find, arith, Bool-cases, Option-cases, ◌⊎◌,
  inl, inr,
}
use swarph_cli.Prelude.Text.{strip, after_prefix}
use swarph_cli.Prelude.Python.{Fields}
use swarph_cli.Gateway.Db.{Db, PeerToken, Revocation}
use swarph_cli.Gateway.Monad.{ok}
use swarph_cli.Gateway.Config.{Config}
use swarph_cli.Gateway.Auth.{
  AuthContext, shared_token, per_peer_token, user_identity, cell_join, is_operator, looks_like_jwt,
  latest_action, is_revoked, context_of_claims, meta_edge_enabled, verify_meta_edge_token,
  compare_digest, is_shared_token, authorize_lab_token, authorize_token, authorize,
}

-- The latest row decides: one more row in the log is the verdict for its own peer and generation,
-- and changes no other.
is_revoked-append :
    (log : List Revocation) (r : Revocation) (peer : String) (gen : ℕ)
    → is_revoked (log ++ r ∷ []) peer gen ≡ (
        if r.peer == peer && r.key_generation == gen
        then r.action == "revoke"
        else is_revoked log peer gen)
unfolding is_revoked
is_revoked-append log r peer gen = rw (latest_action-append log r peer gen) (ground arith)
  where
    latest_action-append :
        (log : List Revocation) (r : Revocation) (peer : String) (gen : ℕ)
        → latest_action peer gen (log ++ r ∷ []) ≡ (
            if r.peer == peer && r.key_generation == gen
            then some r.action
            else latest_action peer gen log)
    latest_action-append [] r peer gen = refl
    latest_action-append (x ∷ log) r peer gen =
        rw (latest_action-append log r peer gen) (ground arith)

-- The caller is a principal that Meta-Edge vouches for.
abbrev pub IsMetaEdge : AuthContext → Type 0
IsMetaEdge shared_token = ⊥
IsMetaEdge (per_peer_token _ _) = ⊥
IsMetaEdge (user_identity _ _ _) = Unit
IsMetaEdge (cell_join _) = Unit

IsMetaEdge-not_operator : (auth : AuthContext) → IsMetaEdge auth → ¬ (is_operator auth ≡ true)
unfolding is_operator
IsMetaEdge-not_operator shared_token m h = m
IsMetaEdge-not_operator (per_peer_token p g) m h = m
IsMetaEdge-not_operator (user_identity _ _ _) m h = cc
IsMetaEdge-not_operator (cell_join _) m h = cc

context_of_claims-IsMetaEdge :
    (claims : Fields) (db db' : Db) (auth : AuthContext)
    → context_of_claims claims db ≡ (ok auth, db')
    → IsMetaEdge auth
unfolding context_of_claims
context_of_claims-IsMetaEdge claims db db' shared_token h = ground arith
context_of_claims-IsMetaEdge claims db db' (per_peer_token p g) h = ground arith
context_of_claims-IsMetaEdge claims db db' (user_identity _ _ _) h = tt
context_of_claims-IsMetaEdge claims db db' (cell_join _) h = tt

context_of_claims_keeps : (claims : Fields) (db : Db) → (context_of_claims claims db).1 ≡ db
unfolding context_of_claims
context_of_claims_keeps claims db = ground arith

module _ (cfg : Config) where
  -- With a Meta-Edge key configured, a token shaped as a JWT authenticates only where its
  -- verification gave claims, and only as a Meta-Edge principal: it never falls through to the
  -- shared or per-peer tokens.
  pub authorize_token-IsMetaEdge :
      (token : String) (db db' : Db) (auth : AuthContext)
      → looks_like_jwt token ≡ true
      → meta_edge_enabled cfg ≡ true
      → authorize_token cfg token db ≡ (ok auth, db')
      → IsMetaEdge auth × ((claims : Fields) × (cfg.verify_jwt token ≡ some claims))
  unfolding authorize_token verify_meta_edge_token
  authorize_token-IsMetaEdge token db db' auth jwt enabled h =
      elim (Option-cases (cfg.verify_jwt token)) [
        | inl e ↦ ground arith
        | inr (claims, e) ↦
            (context_of_claims-IsMetaEdge claims db db' auth (ground arith), (claims, e))
      ]

  is_shared_token_sound :
      (token : String) (db : Db)
      → (is_shared_token cfg token db).0 ≡ ok true
      → (token ≡ cfg.auth_token)
        ⊎ ((token ≡ cfg.commander_token) × ((cfg.commander_token == "") ≡ false))
  unfolding is_shared_token compare_digest
  is_shared_token_sound token db h =
      ground (arith, eq_iff token cfg.auth_token, eq_iff token cfg.commander_token)

  is_shared_token_keeps : (token : String) (db : Db) → (is_shared_token cfg token db).1 ≡ db
  unfolding is_shared_token compare_digest
  is_shared_token_keeps token db = ground arith

  authorize_lab_token_keeps : (token : String) (db : Db) → (authorize_lab_token cfg token db).1 ≡ db
  unfolding authorize_lab_token
  authorize_lab_token_keeps token db = ground (arith, is_shared_token_keeps token db)

  authorize_token_keeps : (token : String) (db : Db) → (authorize_token cfg token db).1 ≡ db
  unfolding authorize_token
  authorize_token_keeps token db = elim (Option-cases (verify_meta_edge_token cfg token)) [
    | inl e ↦ ground (arith, authorize_lab_token_keeps token db)
    | inr (claims, e) ↦
        ground (arith, authorize_lab_token_keeps token db, context_of_claims_keeps claims db)
  ]

  -- Authorization only reads the database, whether it returns or raises.
  authorize_keeps : (header : Option String) (db : Db) → (authorize cfg header db).1 ≡ db
  unfolding authorize
  authorize_keeps none db = ground arith
  authorize_keeps (some h) db = elim (Option-cases (after_prefix "Bearer " h)) [
    | inl e ↦ ground arith
    | inr (t, e) ↦ ground (arith, authorize_token_keeps (strip t) db)
  ]

  -- A per-peer context comes from a row of the token table for the digest of the token, and in
  -- enforcing mode from one that is not revoked.
  pub authorize_lab_token-per_peer_token :
      (token peer : String) (gen : ℕ) (db db' : Db)
      → authorize_lab_token cfg token db ≡ (ok (per_peer_token peer gen), db')
      → ((row : PeerToken) × (find (λ t. t.token_sha256 == cfg.sha256 token) db.peer_tokens
            ≡ some row)
          × (row.peer ≡ peer)
          × (row.key_generation ≡ gen))
        × ((is_revoked db.revocations peer gen && cfg.revocation_enforce) ≡ false)
  unfolding authorize_lab_token
  authorize_lab_token-per_peer_token token peer gen db db' h =
      elim (Option-cases (find (λ t. t.token_sha256 == cfg.sha256 token) db.peer_tokens)) [
        | inl e ↦ ground (arith, is_shared_token_keeps token db)
        | inr (row, e) ↦ (
          (
            row,
            e,
            ground (arith, is_shared_token_keeps token db),
            ground (arith, is_shared_token_keeps token db),
          ),
          ground (arith, is_shared_token_keeps token db),
        )
      ]

  authorize_lab_token-is_operator :
      (token : String) (db db' : Db) (auth : AuthContext)
      → authorize_lab_token cfg token db ≡ (ok auth, db')
      → is_operator auth ≡ true
      → (is_shared_token cfg token db).0 ≡ ok true
  unfolding authorize_lab_token is_operator
  authorize_lab_token-is_operator token db db' auth h op = ground arith

  -- Only the shared token, or a commander token that is set, makes an operator.
  pub authorize_token-is_operator :
      (token : String) (db db' : Db) (auth : AuthContext)
      → authorize_token cfg token db ≡ (ok auth, db')
      → is_operator auth ≡ true
      → (token ≡ cfg.auth_token)
        ⊎ ((token ≡ cfg.commander_token) × ((cfg.commander_token == "") ≡ false))
  authorize_token-is_operator token db db' auth h op =
      elim (Bool-cases (looks_like_jwt token && meta_edge_enabled cfg)) [
        | inl jwt ↦ absurd (
            IsMetaEdge-not_operator auth
              (authorize_token-IsMetaEdge token db db' auth (ground arith) (ground arith) h).0 op)
        | inr lab ↦ is_shared_token_sound token db (
            authorize_lab_token-is_operator token db db' auth
              (unfold authorize_token in rw lab at h) op)
      ]
