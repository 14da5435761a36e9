-- ===== src/Gateway/Auth.antt =====
-- Who is calling (`_authorize`) and whether the caller is the actor that the request names
-- (`_check_caller_binding`), in src/swarph_cli/gateway/server.py.
pub mod Credentials
pub mod Binding
use swarph_cli.Prelude.{
  ℕ, String, Option, none, some, Bool, true, false, not, ◌&&◌, ◌||◌, List, [], ◌∷◌, ◌++◌, ◌==◌,
  if◌then◌else◌, string_eq, nat_eq, option_eq, find,
}
use swarph_cli.Prelude.Text.{strip, split, after_prefix, is_ascii}
use swarph_cli.Prelude.Python.{Value, null, str, Fields, get_or_null}
use swarph_cli.Gateway.Db.{Db, PeerToken, Revocation, BindingEvent}
use swarph_cli.Gateway.Monad.{
  Handler, ok, http, pure, raise, gets, raise_if, when, modify, ◌>>=◌, ◌>>◌,
}
use swarph_cli.Gateway.Config.{Config}

-- `AuthContext`, by its regimes: a shared or commander token, a per-peer token, and the two kinds
-- that Meta-Edge vouches for.
pub data AuthContext : Type 0 where
  shared_token : AuthContext
  per_peer_token : String → ℕ → AuthContext
  user_identity : Value → Value → Value → AuthContext
  cell_join : Value → AuthContext

-- `auth.peer`
unfoldable pub auth_peer : AuthContext → Option String
auth_peer (per_peer_token peer _) = some peer
auth_peer _ = none

-- `_is_operator`: no peer and no kind.
unfoldable pub is_operator : AuthContext → Bool
is_operator shared_token = true
is_operator _ = false

unfoldable pub looks_like_jwt : String → Bool
unfolding split
looks_like_jwt token = elim (split b'.' token) [
  | a ∷ b ∷ c ∷ [] ↦ not (a == "") && not (b == "") && not (c == "")
  | _ ↦ false
]

-- The latest row of the append-only log for exactly this peer and generation decides.
unfoldable pub latest_action : String → ℕ → List Revocation → Option String
latest_action peer gen [] = none
latest_action peer gen (r ∷ rest) = elim (latest_action peer gen rest) [
  | some a ↦ some a
  | none ↦ if r.peer == peer && r.key_generation == gen then some r.action else none
]

unfoldable pub is_revoked : List Revocation → String → ℕ → Bool
unfolding latest_action
is_revoked log peer gen = latest_action peer gen log == some "revoke"

-- `bool(v)` of a claim.
unfoldable pub truthy : Value → Bool
truthy null = false
truthy (Value.bool b) = b
truthy (Value.int n) = not (n == 0)
truthy (Value.neg _) = true
truthy (str s) = not (s == "")
truthy (Value.dict Fields.end) = false
truthy (Value.dict (Fields.field _ _ _)) = true

-- The claims of a verified Meta-Edge token: an identity, a join key with its owner, or refused.
unfoldable pub context_of_claims : Fields → Handler AuthContext
unfolding get_or_null truthy
context_of_claims claims =
    let identity = pure (
      user_identity (get_or_null "sub" claims) (get_or_null "provider" claims)
        (get_or_null "login" claims)) in
    elim (get_or_null "purpose" claims) [
      | null ↦ identity
      | str p ↦
          if p == "identity"
          then identity
          else if p == "cell-join" && truthy (get_or_null "owner" claims)
          then pure (cell_join (get_or_null "owner" claims))
          else raise 401
      | _ ↦ raise 401
    ]

-- `_record_caller_binding_event`, on a connection of its own.
unfoldable pub record_binding_event : ℕ → String → String → String → String → Handler (Unit {0})
record_binding_event now event_type peer site claimed = modify λ db. record db {
  binding_events =
      db.binding_events
      ++ record {
        time = now;
        peer = peer;
        event_type = event_type;
        site = site;
        claimed_actor = claimed;
      }
        ∷ [];
}

module _ (cfg : Config) where
  -- `_verify_meta_edge_token`: nothing is verified where no key is configured.
  unfoldable pub verify_meta_edge_token : String → Option Fields
  verify_meta_edge_token token = elim cfg.meta_edge_public_key [
    | none ↦ none
    | some _ ↦ cfg.verify_jwt token
  ]

  abbrev pub meta_edge_enabled : Bool
  meta_edge_enabled = elim cfg.meta_edge_public_key [ none ↦ false | some _ ↦ true ]

  -- `secrets.compare_digest`: a TypeError, so a 500, at a text that is not ASCII.
  unfoldable pub compare_digest : String → String → Handler Bool
  unfolding is_ascii
  compare_digest a b = if is_ascii a && is_ascii b then pure (a == b) else raise 500

  -- The token against AUTH_TOKEN, then against COMMANDER_TOKEN where that is set.
  unfoldable pub is_shared_token : String → Handler Bool
  is_shared_token token = do
    same ← compare_digest token cfg.auth_token
    if same || cfg.commander_token == ""
        then pure same
        else compare_digest token cfg.commander_token

  -- The shared tokens, then the per-peer tokens with their revocations.
  unfoldable pub authorize_lab_token : String → Handler AuthContext
  authorize_lab_token token = do
    shared ← is_shared_token token
    if shared then pure shared_token else do
      row ← gets (λ db. find (λ t. t.token_sha256 == cfg.sha256 token) db.peer_tokens)
      log ← gets (λ db. db.revocations)
      elim row [
        | none ↦ raise 401
        | some t ↦
            if is_revoked log t.peer t.key_generation && cfg.revocation_enforce
            then raise 401
            else pure (per_peer_token t.peer t.key_generation)
      ]

  -- A token shaped as a JWT is Meta-Edge's business alone, once a key is configured.
  unfoldable pub authorize_token : String → Handler AuthContext
  authorize_token token =
      if looks_like_jwt token && meta_edge_enabled
      then (elim (verify_meta_edge_token token) [
        | none ↦ raise 401
        | some claims ↦ context_of_claims claims
      ])
      else authorize_lab_token token

  -- `_authorize` of the Authorization header.
  unfoldable pub authorize : Option String → Handler AuthContext
  authorize header = if cfg.auth_token == "" then raise 500 else (elim header [
    | none ↦ raise 401
    | some h ↦ elim (after_prefix "Bearer " h) [
      | none ↦ raise 401
      | some t ↦ authorize_token (strip t)
    ]
  ])

  -- `_check_caller_binding`: only a caller with a per-peer token is bound to the actor it names.
  unfoldable pub check_caller_binding :
      ℕ → AuthContext → String → String → Bool → Handler (Unit {0})
  unfolding auth_peer record_binding_event
  check_caller_binding now auth actor site enforce_identity = elim (auth_peer auth) [
    | none ↦ record_binding_event now "caller_unbound" "__shared__" site actor
    | some peer ↦ if peer == actor then pure tt else do
      record_binding_event now "caller_binding_mismatch" peer site actor
      raise_if (enforce_identity && cfg.caller_binding_enforce) 403
  ]
