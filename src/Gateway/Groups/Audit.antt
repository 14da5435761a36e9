-- ===== src/Gateway/Groups/Audit.antt =====
-- The audit of the groups of src/swarph_cli/gateway/server.py.
use swarph_cli.Prelude.{
  ℕ, String, Option, Bool, true, false, not, [], ◌∷◌, ◌++◌, ◌≡◌, refl, ap, string_eq,
}
use swarph_cli.Prelude.Python.{has_key}
use swarph_cli.Gateway.Db.{Db, GroupAudit}
use swarph_cli.Gateway.Monad.{Result, Handler, ok, http, raise_if, ◌>>◌}
use swarph_cli.Gateway.Config.{Config}
use swarph_cli.Gateway.Auth.{AuthContext}
use swarph_cli.Gateway.Groups.{
  require_group_admin, groups_create, groups_delete, groups_member_add, groups_member_remove,
  groups_grant_add, groups_grant_remove, GroupCall, create, delete, add_member, remove_member,
  add_grant, remove_grant, serve_as, serve,
}
use swarph_cli.Gateway.Grants.{group_actor, audited, write_audited, raise_where}

-- A run that returned added one audit row by `actor`, who is a group admin; a run that raised left
-- the database as it was.
abbrev pub Outcome : Config → String → Db → Result (Unit {0}) × Db → Type 0
Outcome cfg actor db (ok _, db') =
    (row : GroupAudit) × (db'.group_audit ≡ db.group_audit ++ row ∷ [])
    × (row.actor ≡ actor)
    × (has_key cfg.group_admins actor ≡ true)
Outcome cfg actor db (http code, db') = db' ≡ db

record IsAudited (cfg : Config) (actor : String) (m : Handler (Unit {0})) : Type 0 where
  at : (db : Db) → Outcome cfg actor db (m db)

module _ (cfg : Config) (now : ℕ) (actor : String) where
  IsAudited-guard :
      (c : Bool) (code : ℕ) (m : Handler (Unit {0}))
      → IsAudited cfg actor m
      → IsAudited cfg actor (raise_if c code >> m)
  IsAudited-guard true code m h = record { at = λ db. refl }
  IsAudited-guard false code m h = record { at = h.at }

  IsAudited-where :
      (test : Db → Bool) (code : ℕ) (m : Handler (Unit {0}))
      → IsAudited cfg actor m
      → IsAudited cfg actor (raise_where test code >> m)
  IsAudited-where test code m h = record { at = λ db. (IsAudited-guard (test db) code m h).at db }

  admin_case :
      (m : Handler (Unit {0})) (b : Bool)
      → has_key cfg.group_admins actor ≡ b
      → (has_key cfg.group_admins actor ≡ true → IsAudited cfg actor m)
      → IsAudited cfg actor (raise_if (not b) 403 >> m)
  admin_case m true e h = record { at = (h e).at }
  admin_case m false e h = record { at = λ db. refl }

  IsAudited-admin :
      (m : Handler (Unit {0}))
      → (has_key cfg.group_admins actor ≡ true → IsAudited cfg actor m)
      → IsAudited cfg actor (require_group_admin cfg now actor >> m)
  IsAudited-admin m h = admin_case m (has_key cfg.group_admins actor) refl h

  IsAudited-write :
      (f : Db → Db) (row : Db → GroupAudit)
      → ((db : Db) → (f db).group_audit ≡ db.group_audit)
      → ((db : Db) → (row db).actor ≡ actor)
      → has_key cfg.group_admins actor ≡ true
      → IsAudited cfg actor (write_audited f row)
  unfolding write_audited
  IsAudited-write f row same by admin = record {
    at = λ db. (row db, ap (λ rows. rows ++ row db ∷ []) (same db), by db, admin);
  }

  ruleset audit_rules = (IsAudited-admin, IsAudited-guard, IsAudited-where, IsAudited-write)

  serve_as-IsAudited : (call : GroupCall) → IsAudited cfg actor (serve_as cfg now actor call)
  unfolding groups_create groups_delete groups_member_add groups_member_remove groups_grant_add
      groups_grant_remove audited
  serve_as-IsAudited (create name description kind) = search audit_rules depth 12
  serve_as-IsAudited (delete name) = search audit_rules depth 12
  serve_as-IsAudited (add_member name peer) = search audit_rules depth 12
  serve_as-IsAudited (remove_member name peer) = search audit_rules depth 12
  serve_as-IsAudited (add_grant name grant_type target level) = search audit_rules depth 12
  serve_as-IsAudited (remove_grant name grant_type target) = search audit_rules depth 12

-- Every change of groups, members or grants is made by a configured group admin and adds exactly one
-- audit row in that admin's name; a request that is refused, for whatever reason, changes nothing.
pub serve-Outcome :
    (cfg : Config) (now : ℕ) (auth : AuthContext) (asserted : Option String) (call : GroupCall)
    (db : Db)
    → Outcome cfg (group_actor auth asserted) db (serve cfg now auth asserted call db)
unfolding serve
serve-Outcome cfg now auth asserted call db =
    (serve_as-IsAudited cfg now (group_actor auth asserted) call).at db
