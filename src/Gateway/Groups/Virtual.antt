-- ===== src/Gateway/Groups/Virtual.antt =====
-- The virtual group ALL under the administration of the groups of src/swarph_cli/gateway/server.py.
use swarph_cli.Prelude.{
  ℕ, String, Option, Bool, true, false, List, [], ◌∷◌, ◌++◌, ◌≡◌, refl, ◌∙◌, arith, string_eq, any,
  any-append, where_rows, where_rows-any,
}
use swarph_cli.Gateway.Db.{Db, GroupMember, GroupAudit}
use swarph_cli.Gateway.Monad.{Handler, raise_if, ◌>>◌}
use swarph_cli.Gateway.Frames.{Preserves, preserves_rules}
use swarph_cli.Gateway.Config.{Config}
use swarph_cli.Gateway.Auth.{AuthContext}
use swarph_cli.Gateway.Groups.{
  groups_create, groups_delete, groups_member_add, groups_member_remove, groups_grant_add,
  groups_grant_remove, GroupCall, create, delete, add_member, remove_member, add_grant,
  remove_grant, serve_as, serve,
}
use swarph_cli.Gateway.Grants.{group_actor, is_virtual, write_audited}

-- No row stores a membership of ALL.
abbrev pub IsComputed : Db → Type 0
IsComputed db = any (λ (m : GroupMember). is_virtual m.group) db.group_members ≡ false

write-IsComputed :
    (f : Db → Db) (row : Db → GroupAudit)
    → ((db : Db) → IsComputed db → IsComputed (f db))
    → Preserves IsComputed (write_audited f row)
unfolding write_audited
write-IsComputed f row h = record { at = h }

-- What follows a guard may rely on it.
guarded :
    (c : Bool) (code : ℕ) (m : Handler (Unit {0}))
    → (c ≡ false → Preserves IsComputed m)
    → Preserves IsComputed (raise_if c code >> m)
guarded true code m h = record { at = λ db k. k }
guarded false code m h = record { at = (h refl).at }

added :
    (name : String) (m : GroupMember) (members : List GroupMember)
    → any (λ (k : GroupMember). is_virtual k.group) members ≡ false
    → is_virtual m.group ≡ false
    → any (λ (k : GroupMember). is_virtual k.group) (members ++ m ∷ []) ≡ false
unfolding any
added name m members h v =
    any-append (λ (k : GroupMember). is_virtual k.group) members (m ∷ []) ∙ ground (arith, h, v)

module _ (cfg : Config) (now : ℕ) (actor : String) where
  rest-IsComputed :
      (p : GroupMember → Bool) (db : Db)
      → IsComputed db
      → any (λ (m : GroupMember). is_virtual m.group) (where_rows p db.group_members) ≡ false
  rest-IsComputed p db h = where_rows-any p (λ m. is_virtual m.group) db.group_members h

  serve_as-IsComputed : (call : GroupCall) → Preserves IsComputed (serve_as cfg now actor call)
  unfolding groups_create groups_delete groups_member_add groups_member_remove groups_grant_add
      groups_grant_remove
  serve_as-IsComputed (create name description kind) =
      search (preserves_rules, write-IsComputed) depth 12
  serve_as-IsComputed (delete name) =
      search (preserves_rules, write-IsComputed, rest-IsComputed) depth 12
  serve_as-IsComputed (add_member name peer) =
      search (preserves_rules, write-IsComputed, guarded, added) depth 12
  serve_as-IsComputed (remove_member name peer) =
      search (preserves_rules, write-IsComputed, rest-IsComputed) depth 12
  serve_as-IsComputed (add_grant name grant_type target level) =
      search (preserves_rules, write-IsComputed) depth 12
  serve_as-IsComputed (remove_grant name grant_type target) =
      search (preserves_rules, write-IsComputed) depth 12

-- No request stores a membership of the virtual group ALL, so who is in it stays a matter of the
-- registry of peers alone.
pub serve-IsComputed :
    (cfg : Config) (now : ℕ) (auth : AuthContext) (asserted : Option String) (call : GroupCall)
    (db : Db)
    → IsComputed db
    → IsComputed (serve cfg now auth asserted call db).1
unfolding serve
serve-IsComputed cfg now auth asserted call db h =
    (serve_as-IsComputed cfg now (group_actor auth asserted) call).at db h
