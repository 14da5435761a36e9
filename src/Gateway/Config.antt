-- ===== src/Gateway/Config.antt =====
-- What the gateway reads from its environment, and the third-party calls of its authorization:
-- `verify_jwt` stands for `jwt.decode` of PyJWT with its options (`none` for any exception), and
-- `sha256` for hashlib's digest.
use swarph_cli.Prelude.{String, Bool, Option, List, ℕ}
use swarph_cli.Prelude.Python.{Fields}

pub record Config : Type 0 where
  pub auth_token : String
  pub commander_token : String
  pub meta_edge_public_key : Option String
  pub verify_jwt : String → Option Fields
  pub sha256 : String → String
  pub caller_binding_enforce : Bool
  pub revocation_enforce : Bool
  pub group_admins : List String
  pub subscription_chat_max_per_day : ℕ
