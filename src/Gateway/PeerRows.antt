-- ===== src/Gateway/PeerRows.antt =====
-- The rows of claude_peers, peer_tokens, peer_token_revocations and peer_ratifications, and the statements
-- on them of src/swarph_cli/gateway/server.py.
use swarph_cli.Prelude.{
  ℕ, ◌+◌, String, Option, none, some, Bool, true, false, not, ◌&&◌, ◌||◌, List, [], ◌∷◌, ◌++◌, ◌==◌,
  leb, if◌then◌else◌, string_eq, nat_eq, find, any, update_where, where_rows,
}
use swarph_cli.Prelude.Python.{Value, null}
use swarph_cli.Gateway.Db.{Db, Peer, PeerToken, Revocation, Ratification}
use swarph_cli.Gateway.Auth.{AuthContext, per_peer_token, user_identity, cell_join, is_revoked}

pub record RegisterRequest : Type 0 where
  pub name : String
  pub url : String
  pub capabilities : Value
  pub defer_token_mint : Bool

-- `dm_exists`: the witness_dm_id, if any, is the id of a row of claude_messages.
pub record PatchRequest : Type 0 where
  pub ratified : Bool
  pub ratified_by : String
  pub reason : Option String
  pub witness_dm_id : Option ℕ
  pub dm_exists : Bool

pub record UnrevokeRequest : Type 0 where
  pub key_generation : ℕ
  pub witness : String
  pub reason : Option String
  pub witness_dm_id : Option ℕ

pub data TokenStatus : Type 0 where
  existing minted deferred : TokenStatus

pub record Registered : Type 0 where
  pub ratified : Bool
  pub peer_token : Option String
  pub token_status : TokenStatus
  pub bootstrap_mint : Bool

abbrev pub registered : Bool → Option String → TokenStatus → Bool → Registered
registered ratified token status bootstrap = record {
  ratified = ratified;
  peer_token = token;
  token_status = status;
  bootstrap_mint = bootstrap;
}

abbrev pub larger : ℕ → Option ℕ → ℕ
larger n none = n
larger n (some m) = if leb n m then m else n

-- `SELECT MAX(key_generation) FROM peer_tokens WHERE peer = ?`
unfoldable pub max_token : String → List PeerToken → Option ℕ
max_token peer [] = none
max_token peer (t ∷ ts) =
    let rest = max_token peer ts in
    if t.peer == peer then some (larger t.key_generation rest) else rest

-- The same of peer_token_revocations.
unfoldable pub max_revocation : String → List Revocation → Option ℕ
max_revocation peer [] = none
max_revocation peer (r ∷ rs) =
    let rest = max_revocation peer rs in
    if r.peer == peer then some (larger r.key_generation rest) else rest

abbrev pub or_zero : Option ℕ → ℕ
or_zero none = 0
or_zero (some n) = n

-- `hwm`
unfoldable pub high_water_mark : String → Db → ℕ
high_water_mark peer db =
    larger (or_zero (max_token peer db.peer_tokens)) (max_revocation peer db.revocations)

-- `new_gen`
unfoldable pub new_generation : String → Db → Option ℕ
new_generation peer db = elim (max_token peer db.peer_tokens) [
  | none ↦ some (high_water_mark peer db + 1)
  | some gen ↦
      if is_revoked db.revocations peer gen then some (high_water_mark peer db + 1) else none
]

abbrev pub has_name : String → Peer → Bool
has_name name p = p.name == name

unfoldable pub peer_row : String → Db → Option Peer
peer_row name db = find (has_name name) db.peers

unfoldable pub is_ratified : String → Db → Bool
is_ratified name db = elim (peer_row name db) [ none ↦ false | some p ↦ p.ratified ]

-- The owner of a registration: a Meta-Edge principal's.
unfoldable pub owner_of : AuthContext → Value
owner_of (cell_join owner) = owner
owner_of (user_identity user _ _) = user
owner_of _ = null

-- `COALESCE(excluded.owner, claude_peers.owner)`
abbrev pub coalesce : Value → Value → Value
coalesce null old = old
coalesce v old = v

-- INSERT … ON CONFLICT(name) DO UPDATE of claude_peers
unfoldable pub upsert_peer : ℕ → Value → RegisterRequest → List Peer → List Peer
upsert_peer now owner req peers =
    if any (has_name req.name) peers
    then update_where (has_name req.name)
        (λ p. record p {
          url = req.url;
          capabilities = some req.capabilities;
          last_seen = some now;
          owner = coalesce owner p.owner;
        })
        peers
    else peers
      ++ record {
        name = req.name;
        capabilities = some req.capabilities;
        enabled = true;
        ratified = false;
        url = req.url;
        registered_at = now;
        last_seen = some now;
        ratified_at = none;
        ratified_by = none;
        ratification_reason = none;
        owner = owner;
      }
        ∷ []

-- The two UNIQUE constraints of peer_tokens.
abbrev pub collides : PeerToken → PeerToken → Bool
collides new t =
    t.token_sha256 == new.token_sha256
    || t.peer == new.peer && t.key_generation == new.key_generation

-- The regime of the caller as the audit row records it.
abbrev pub regime : AuthContext → String
regime (per_peer_token _ _) = "per_peer_token"
regime _ = "shared_token"

unfoldable pub ratify_row : ℕ → PatchRequest → Peer → Peer
ratify_row now req p = record p {
  ratified = true;
  ratified_at = some now;
  ratified_by = some req.ratified_by;
  ratification_reason = req.reason;
}

-- The revoke rows of a deregistration, one for each token of the peer.
unfoldable pub revoke_rows : ℕ → String → List PeerToken → List Revocation
revoke_rows now name [] = []
revoke_rows now name (t ∷ ts) =
    let rest = revoke_rows now name ts in
    if t.peer == name
    then record {
      peer = name;
      key_generation = t.key_generation;
      action = "revoke";
      actor = name;
      reason = some "deregister";
      witness_dm_id = none;
      created_at = now;
    }
      ∷ rest
    else rest

-- The foreign key of peer_ratifications (schema.sql): its rows whose peer is among `before` and no longer
-- among `after`.
unfoldable pub has_orphans : List Ratification → List Peer → List Peer → Bool
has_orphans rows before after =
    any (λ (r : Ratification). any (has_name r.peer) before && not (any (has_name r.peer) after))
      rows

-- `DELETE FROM claude_peers WHERE name = ?`. `none` is SQLite's IntegrityError: `_conn` sets
-- `PRAGMA foreign_keys = ON`, and the key has the default action NO ACTION.
unfoldable pub delete_peer : String → Db → Option Db
delete_peer name db =
    let left = where_rows (λ p. not (has_name name p)) db.peers in
    if has_orphans db.ratifications db.peers left then none else some (record db { peers = left })
