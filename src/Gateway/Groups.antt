-- ===== src/Gateway/Groups.antt =====
-- The handlers that administer the groups of rights of src/swarph_cli/gateway/server.py: each asks for
-- a group admin and writes its audit row.
pub mod Audit
pub mod Access
pub mod Virtual
use Prim.Native.String.{◌++◌ as join, compare}
use Prim.Native.Nat.{Ordering}
use swarph_cli.Prelude.{
  ℕ, ◌+◌, String, Option, none, some, Bool, true, false, not, ◌&&◌, ◌||◌, List, [], ◌∷◌, ◌++◌, map,
  ltb, leb, ◌==◌, if◌then◌else◌, string_eq, nat_eq, find, any, count, length, where_rows,
}
use swarph_cli.Prelude.Text.{codes, strip, decimal}
use swarph_cli.Prelude.Python.{has_key}
use swarph_cli.Gateway.Db.{Db, Peer, ChannelMember, Group, GroupMember, GroupGrant, GroupAudit}
use swarph_cli.Gateway.Monad.{
  Result, Handler, ok, http, pure, raise, gets, raise_if, modify, ◌>>=◌, ◌>>◌,
}
use swarph_cli.Gateway.Config.{Config}
use swarph_cli.Gateway.Auth.{AuthContext, shared_token, per_peer_token}
use swarph_cli.Gateway.Grants.{
  is_virtual, level_rank, asserted_actor, group_actor, is_group_char, is_group_name, all_peers,
  peer_groups, passes, group_grants_for, level_below, best_grant, Answer, deny, by_grant,
  authz_check, audited, write_audited, cascade, is_group, is_membership, is_grant, raise_where,
}

module _ (cfg : Config) (now : ℕ) where
  -- `_require_group_admin`
  abbrev pub require_group_admin : String → Handler (Unit {0})
  require_group_admin actor = raise_if (not (has_key cfg.group_admins actor)) 403

  -- `POST /groups`, as the actor
  unfoldable pub groups_create : String → String → String → String → Handler (Unit {0})
  groups_create actor given description kind = do
    require_group_admin actor
    let name = strip given
    raise_if (not (is_group_name name)) 400
    raise_if (is_virtual name) 409
    raise_if (not (kind == "role" || kind == "custom")) 400
    raise_where (λ db. any (is_group name) db.groups) 409
    write_audited
        (λ db. record db {
          groups =
              db.groups
              ++ record {
                name = name;
                description = description;
                kind = kind;
                created_by = actor;
                created_at = now;
              }
                ∷ [];
        })
        (λ db. audited now actor "group.create" name none none none none none)

  -- `DELETE /groups/{name}`, as the actor
  unfoldable pub groups_delete : String → String → Handler (Unit {0})
  groups_delete actor name = do
    require_group_admin actor
    raise_if (is_virtual name) 400
    raise_where (λ db. not (any (is_group name) db.groups)) 404
    write_audited
        (λ db. record db {
          group_members = where_rows (λ m. not (m.group == name)) db.group_members;
          group_grants = where_rows (λ g. not (g.group == name)) db.group_grants;
          groups = where_rows (λ g. not (is_group name g)) db.groups;
        })
        (λ db. audited now actor "group.delete" name none none none none (some (cascade name db)))

  -- `POST /groups/{name}/members`, as the actor
  unfoldable pub groups_member_add : String → String → String → Handler (Unit {0})
  groups_member_add actor name peer = do
    require_group_admin actor
    raise_if (is_virtual name) 400
    raise_where (λ db. not (any (is_group name) db.groups)) 404
    raise_where (λ db. any (is_membership name peer) db.group_members) 409
    write_audited
        (λ db. record db {
          group_members =
              db.group_members
              ++ record { group = name; peer = peer; added_by = actor; added_at = now } ∷ [];
        })
        (λ db. audited now actor "member.add" name (some peer) none none none none)

  -- `DELETE /groups/{name}/members/{peer}`, as the actor
  unfoldable pub groups_member_remove : String → String → String → Handler (Unit {0})
  groups_member_remove actor name peer = do
    require_group_admin actor
    raise_if (is_virtual name) 400
    raise_where (λ db. not (any (is_membership name peer) db.group_members)) 404
    write_audited
        (λ db. record db {
          group_members = where_rows (λ m. not (is_membership name peer m)) db.group_members;
        })
        (λ db. audited now actor "member.remove" name (some peer) none none none none)

  -- `POST /groups/{name}/grants`, as the actor
  unfoldable pub groups_grant_add : String → String → String → String → String → Handler (Unit {0})
  groups_grant_add actor name grant_type target level = do
    require_group_admin actor
    raise_if (grant_type == "board") 400
    raise_where (λ db. not (is_virtual name) && not (any (is_group name) db.groups)) 404
    raise_where (λ db. any (is_grant name grant_type target) db.group_grants) 409
    write_audited
        (λ db. record db {
          group_grants =
              db.group_grants
              ++ record {
                group = name;
                grant_type = grant_type;
                target = target;
                level = level;
                added_by = actor;
                added_at = now;
              }
                ∷ [];
        })
        (λ db.
          audited now actor "grant.add" name none (some grant_type) (some target) (some level) none)

  -- `DELETE /groups/{name}/grants`, as the actor
  unfoldable pub groups_grant_remove : String → String → String → String → Handler (Unit {0})
  groups_grant_remove actor name grant_type target = do
    require_group_admin actor
    raise_where (λ db. not (any (is_grant name grant_type target) db.group_grants)) 404
    write_audited
        (λ db. record db {
          group_grants = where_rows (λ g. not (is_grant name grant_type target g)) db.group_grants;
        })
        (λ db. audited now actor "grant.remove" name none (some grant_type) (some target) none none)

-- A request that changes the groups.
pub data GroupCall : Type 0 where
  create : (name description kind : String) → GroupCall
  delete : (name : String) → GroupCall
  add_member : (name peer : String) → GroupCall
  remove_member : (name peer : String) → GroupCall
  add_grant : (name grant_type target level : String) → GroupCall
  remove_grant : (name grant_type target : String) → GroupCall

abbrev pub serve_as : Config → ℕ → String → GroupCall → Handler (Unit {0})
serve_as cfg now actor (create name description kind) =
    groups_create cfg now actor name description kind
serve_as cfg now actor (delete name) = groups_delete cfg now actor name
serve_as cfg now actor (add_member name peer) = groups_member_add cfg now actor name peer
serve_as cfg now actor (remove_member name peer) = groups_member_remove cfg now actor name peer
serve_as cfg now actor (add_grant name grant_type target level) =
    groups_grant_add cfg now actor name grant_type target level
serve_as cfg now actor (remove_grant name grant_type target) =
    groups_grant_remove cfg now actor name grant_type target

-- The handler that the request reaches, with the actor that it asserts.
unfoldable pub serve : Config → ℕ → AuthContext → Option String → GroupCall → Handler (Unit {0})
serve cfg now auth asserted call = serve_as cfg now (group_actor auth asserted) call
