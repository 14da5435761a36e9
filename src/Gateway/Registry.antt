-- ===== src/Gateway/Registry.antt =====
-- Registration, ratification and the revocation of tokens: `peers_register`, `peer_ratify`,
-- `peer_deregister` and `peer_unrevoke` of src/swarph_cli/gateway/server.py, after `_authorize`. The names
-- that come from the requests' paths are arguments. A transaction that rolls back leaves no writes.
mod Bound
mod Listed
mod Orphans
pub mod Revoked
pub mod Ratified
pub mod Minted
pub mod Audited
pub mod Actors
use swarph_cli.Prelude.{
  ℕ, zero, suc, ◌+◌, String, Option, none, some, Bool, true, false, not, ◌&&◌, ◌||◌, List, [], ◌∷◌,
  ◌++◌, ◌==◌, leb, if◌then◌else◌, string_eq, nat_eq, find, any, count, update_where, where_rows,
}
use swarph_cli.Prelude.Python.{Value, null, str}
use swarph_cli.Gateway.Db.{Db, Peer, PeerToken, Revocation, Ratification}
use swarph_cli.Gateway.Monad.{Handler, Result, ok, http, raise_if, ◌>>=◌, ◌>>◌}
use swarph_cli.Gateway.Config.{Config}
use swarph_cli.Gateway.Auth.{
  AuthContext, shared_token, per_peer_token, user_identity, cell_join, is_revoked,
  check_caller_binding,
}
use swarph_cli.Gateway.PeerRows.{
  RegisterRequest, PatchRequest, UnrevokeRequest, TokenStatus, existing, minted, deferred,
  Registered, registered, larger, max_token, max_revocation, or_zero, high_water_mark,
  new_generation, has_name, peer_row, is_ratified, owner_of, coalesce, upsert_peer, collides,
  regime, ratify_row, revoke_rows, delete_peer,
}

pub data Call : Type 0 where
  register_peer : String → RegisterRequest → Call
  ratify_peer : String → PatchRequest → Call
  deregister_peer : String → Call
  unrevoke_peer : String → UnrevokeRequest → Call

module _ (cfg : Config) (now : ℕ) (auth : AuthContext) where
  -- The transaction of `peers_register`, with the token that `secrets` drew. It rolls back where the
  -- token's digest is taken.
  unfoldable pub register : String → RegisterRequest → Handler Registered
  register raw req db =
      let db' = record db { peers = upsert_peer now (owner_of auth) req db.peers } in
      let reply = registered (is_ratified req.name db') in
      let none_ratified = count (λ (p : Peer). p.ratified) db'.peers == 0 in
      elim (new_generation req.name db') [
        | none ↦ (ok (reply none existing false), db')
        | some gen ↦
            let row : PeerToken = record {
              peer = req.name;
              key_generation = gen;
              token_sha256 = cfg.sha256 raw;
              minted_at = now;
            } in
            if req.defer_token_mint && not none_ratified
            then (ok (reply none deferred false), db')
            else if any (collides row) db.peer_tokens
            then (http 500, db)
            else (
              ok (reply (some raw) minted req.defer_token_mint),
              record db' { peer_tokens = db'.peer_tokens ++ row ∷ [] },
            )
      ]

  unfoldable pub peers_register : String → RegisterRequest → Handler Registered
  peers_register raw req = do
    check_caller_binding cfg now auth req.name "peers_register_mint" true
    register raw req

  -- The checks and the transaction of `peer_ratify`.
  unfoldable pub ratify : String → PatchRequest → Handler (Unit {0})
  ratify name req db = elim (peer_row req.ratified_by db) [
    | none ↦ (http 403, db)
    | some witness ↦ if not witness.ratified then (http 403, db) else (elim (peer_row name db) [
      | none ↦ (http 404, db)
      | some target ↦
          if target.ratified
          then (http 409, db)
          else if not req.dm_exists
          then (http 500, db)
          else (
            ok tt,
            record db {
              peers = update_where (has_name name) (ratify_row now req) db.peers;
              ratifications =
                  db.ratifications
                  ++ record {
                    peer = name;
                    ratified_by = req.ratified_by;
                    ratified_at = now;
                    reason = req.reason;
                    witness_dm_id = req.witness_dm_id;
                    binding_regime = regime auth;
                  }
                    ∷ [];
            },
          )
    ])
  ]

  unfoldable pub peer_ratify : String → PatchRequest → Handler (Unit {0})
  peer_ratify name req = do
    check_caller_binding cfg now auth req.ratified_by "peer_ratify" true
    raise_if (not req.ratified) 400
    raise_if (req.ratified_by == name) 400
    ratify name req

  -- The transaction of `peer_deregister`: the revoke rows, the purge of the tokens and the delete, with a
  -- rollback of all three where a statement raises.
  unfoldable pub deregister : String → Handler (Unit {0})
  deregister name db = elim (peer_row name db) [
    | none ↦ (http 404, db)
    | some _ ↦
        let revoked = record db {
          revocations = db.revocations ++ revoke_rows now name db.peer_tokens;
        } in
        let purged = record revoked {
          peer_tokens = where_rows (λ t. not (t.peer == name)) revoked.peer_tokens;
        } in
        elim (delete_peer name purged) [ none ↦ (http 500, db) | some db' ↦ (ok tt, db') ]
  ]

  unfoldable pub peer_deregister : String → Handler (Unit {0})
  peer_deregister name = do
    check_caller_binding cfg now auth name "peer_deregister" true
    deregister name

  -- The transaction of `peer_unrevoke`; the answer is whether the token is revoked still.
  unfoldable pub unrevoke : String → UnrevokeRequest → Handler Bool
  unrevoke name req db =
      if not (is_revoked db.revocations name req.key_generation)
      then (http 409, db)
      else (elim (peer_row req.witness db) [
        | none ↦ (http 403, db)
        | some witness ↦
            if not witness.ratified
            then (http 403, db)
            else (elim (max_token req.witness db.peer_tokens) [
              | none ↦ (http 403, db)
              | some gen ↦
                  if is_revoked db.revocations req.witness gen
                  then (http 403, db)
                  else let log =
                      db.revocations
                      ++ record {
                        peer = name;
                        key_generation = req.key_generation;
                        action = "unrevoke";
                        actor = req.witness;
                        reason = req.reason;
                        witness_dm_id = req.witness_dm_id;
                        created_at = now;
                      }
                        ∷ [] in
                    (ok (is_revoked log name req.key_generation), record db { revocations = log })
            ])
      ])

  unfoldable pub peer_unrevoke : String → UnrevokeRequest → Handler Bool
  peer_unrevoke name req = do
    check_caller_binding cfg now auth req.witness "peer_unrevoke" true
    raise_if (req.witness == name) 403
    unrevoke name req

  -- The database that the call leaves.
  unfoldable pub serve : Call → Db → Db
  serve (register_peer raw req) db = (peers_register raw req db).1
  serve (ratify_peer name req) db = (peer_ratify name req db).1
  serve (deregister_peer name) db = (peer_deregister name db).1
  serve (unrevoke_peer name req) db = (peer_unrevoke name req db).1

-- A request to the registry, with the time and the caller.
pub record Request : Type 0 where
  pub now : ℕ
  pub auth : AuthContext
  pub call : Call

-- The database that a sequence of requests leaves.
unfoldable pub serve_all : Config → List Request → Db → Db
serve_all cfg [] db = db
serve_all cfg (r ∷ rs) db = serve_all cfg rs (serve cfg r.now r.auth r.call db)
