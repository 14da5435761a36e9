-- ===== src/Gateway/Registry/Audited.antt =====
-- How long a ratification of src/swarph_cli/gateway/server.py lasts.
use swarph_cli.Prelude.{ℕ, String, ◌≡◌, string_eq}
use swarph_cli.Gateway.Db.{Db}
use swarph_cli.Gateway.Monad.{Result, ok}
use swarph_cli.Gateway.Config.{Config}
use swarph_cli.Gateway.Auth.{AuthContext}
use swarph_cli.Gateway.Registry.Orphans.{IsAudited}

module _ (cfg : Config) (now : ℕ) (auth : AuthContext) where
  -- What a request that is answered establishes.
  abbrev Starts : String → Result (Unit {0}) → Db → Type 0
  Starts name r x = r ≡ ok tt → IsAudited name x
