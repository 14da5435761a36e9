-- ===== src/Gateway/Tests/Callers.antt =====
-- Authorization and the caller binding of src/swarph_cli/gateway/server.py at concrete data.
use swarph_cli.Prelude.{
  ℕ, ◌≤◌, String, Option, none, some, Bool, true, false, ◌&&◌, List, [], ◌∷◌, ◌++◌, ◌==◌, ◌≡◌, ◌≢◌,
  ◌↔◌, ◌⊎◌, refl, ap, eq_iff, arith, All, In, inl, inr, any, find, update_where, where_rows, count,
  if◌then◌else◌, string_eq, nat_eq, option_eq,
}
use swarph_cli.Prelude.Python.{Value, Fields, str}
use swarph_cli.Gateway.Db.{PeerToken}
use swarph_cli.Gateway.Monad.{ok, http}
use swarph_cli.Gateway.Fixtures.{test_config, empty_db, one_peer}
use swarph_cli.Gateway.Auth.{
  AuthContext, shared_token, per_peer_token, user_identity, is_operator, looks_like_jwt,
  meta_edge_enabled, is_revoked, authorize_token, authorize_lab_token, authorize,
  check_caller_binding,
}
use swarph_cli.Gateway.Auth.Credentials.{
  IsMetaEdge, authorize_token-IsMetaEdge, authorize_lab_token-per_peer_token,
  authorize_token-is_operator,
}

pub bob-ada : ◌≢◌ {A = String} "bob" "ada"
bob-ada e = let h : false ≡ true = (eq_iff "bob" "ada").1 e in cc

runs_of_authorize :
    (authorize test_config (some "Bearer shared ") empty_db ≡ (ok shared_token, empty_db))
    × (authorize test_config (some "Bearer secret") one_peer
        ≡ (ok (per_peer_token "bob" 1), one_peer))
    × (authorize test_config (some "Bearer x.y.z") empty_db ≡ (http 401, empty_db))
    × (authorize test_config none empty_db ≡ (http 401, empty_db))
unfolding authorize authorize_token swarph_cli.Prelude.Text.after_prefix looks_like_jwt
    swarph_cli.Prelude.Text.strip authorize_lab_token swarph_cli.Gateway.Auth.is_shared_token
    swarph_cli.Gateway.Auth.compare_digest find is_revoked
    swarph_cli.Gateway.Auth.verify_meta_edge_token
runs_of_authorize = (refl, refl, refl, refl)

jwt_run :
    authorize_token test_config "a.b.c" empty_db
    ≡ (ok (user_identity (str "u1") Value.null Value.null), empty_db)
unfolding authorize_token looks_like_jwt swarph_cli.Gateway.Auth.verify_meta_edge_token
    swarph_cli.Gateway.Auth.context_of_claims
jwt_run = refl

jwt_shaped : looks_like_jwt "a.b.c" ≡ true
unfolding looks_like_jwt
jwt_shaped = refl

authorize_token-IsMetaEdge_example :
    IsMetaEdge (user_identity (str "u1") Value.null Value.null)
    × ((claims : Fields) × (test_config.verify_jwt "a.b.c" ≡ some claims))
authorize_token-IsMetaEdge_example =
    authorize_token-IsMetaEdge test_config "a.b.c" empty_db empty_db
      (user_identity (str "u1") Value.null Value.null) jwt_shaped refl jwt_run

secret_run :
    authorize_lab_token test_config "secret" one_peer ≡ (ok (per_peer_token "bob" 1), one_peer)
unfolding authorize_lab_token swarph_cli.Gateway.Auth.is_shared_token
    swarph_cli.Gateway.Auth.compare_digest find is_revoked
secret_run = refl

authorize_lab_token-per_peer_token_example :
    ((row : PeerToken) × (find (λ t. t.token_sha256 == "secret") one_peer.peer_tokens ≡ some row)
      × (row.peer ≡ "bob")
      × (row.key_generation ≡ 1))
    × ((is_revoked one_peer.revocations "bob" 1 && true) ≡ false)
authorize_lab_token-per_peer_token_example =
    authorize_lab_token-per_peer_token test_config "secret" "bob" 1 one_peer one_peer secret_run

shared_run : authorize_token test_config "shared" one_peer ≡ (ok shared_token, one_peer)
unfolding authorize_token authorize_lab_token looks_like_jwt swarph_cli.Gateway.Auth.is_shared_token
    swarph_cli.Gateway.Auth.compare_digest
shared_run = refl

shared_operator : is_operator shared_token ≡ true
unfolding is_operator
shared_operator = refl

authorize_token-is_operator_example :
    ("shared" ≡ test_config.auth_token)
    ⊎ (("shared" ≡ test_config.commander_token) × ((test_config.commander_token == "") ≡ false))
authorize_token-is_operator_example =
    authorize_token-is_operator test_config "shared" one_peer one_peer shared_token shared_run
      shared_operator
