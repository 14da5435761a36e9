-- ===== src/Gateway/Registry/Ratified.antt =====
-- How a peer of src/swarph_cli/gateway/server.py becomes ratified.
use swarph_cli.Prelude.{
  ℕ, String, true, false, not, List, [], ◌∷◌, ◌++◌, ◌==◌, ◌≡◌, ◌≢◌, ◌⊎◌, inl, inr, refl, sym, subst,
  ap, ◌∙◌, arith, Bool-cases, string_eq, eq_iff, update_where,
}
use swarph_cli.Gateway.Db.{Db, BindingEvent, Ratification}
use swarph_cli.Gateway.Monad.{raise_if, ◌>>◌}
use swarph_cli.Gateway.Config.{Config}
use swarph_cli.Gateway.Auth.{AuthContext}
use swarph_cli.Gateway.PeerRows.{
  RegisterRequest, PatchRequest, UnrevokeRequest, has_name, is_ratified, ratify_row, regime,
  owner_of, delete_peer,
}
use swarph_cli.Gateway.Registry.{
  Call, register_peer, ratify_peer, deregister_peer, unrevoke_peer, register, ratify, deregister,
  unrevoke, peers_register, peer_ratify, peer_deregister, peer_unrevoke, serve,
}
use swarph_cli.Gateway.Registry.Bound.{guard_keeps, bound}
use swarph_cli.Gateway.Registry.Listed.{
  ratified_in, is_ratified_lem, ratified_in-update_where, ratified_in-where_rows,
  ratified_in-upsert_peer,
}

module _ (cfg : Config) (now : ℕ) (auth : AuthContext) where
  abbrev pub audit_row : String → PatchRequest → Ratification
  audit_row name req = record {
    peer = name;
    ratified_by = req.ratified_by;
    ratified_at = now;
    reason = req.reason;
    witness_dm_id = req.witness_dm_id;
    binding_regime = regime auth;
  }

  -- The call ratifies the peer, in the name of another peer that is ratified, and adds one row to the
  -- audit that says so.
  pub record IsRatify (c : Call) (peer : String) (db after : Db) : Type 0 where
    pub request : PatchRequest
    pub call : c ≡ ratify_peer peer request
    pub other : request.ratified_by ≢ peer
    pub witness : is_ratified request.ratified_by db ≡ true
    pub audit : after.ratifications ≡ db.ratifications ++ audit_row peer request ∷ []

  abbrev StaysOut : Call → String → Db → Db → Type 0
  StaysOut c peer db x = (ratified_in peer x.peers ≡ false) ⊎ IsRatify c peer db x

  pub register-ratified_in :
      (n raw : String) (req : RegisterRequest) (db : Db)
      → ratified_in n (register cfg now auth raw req db).1.peers ≡ ratified_in n db.peers
  unfolding register
  register-ratified_in n raw req db =
      let kept = ratified_in-upsert_peer n now (owner_of auth) req db.peers in ground arith

  deregister-ratified_in :
      (n name : String) (db : Db)
      → ratified_in n db.peers ≡ false
      → ratified_in n (deregister cfg now auth name db).1.peers ≡ false
  unfolding deregister delete_peer
  deregister-ratified_in n name db h =
      let kept = ratified_in-where_rows n name db.peers h in ground arith

  pub unrevoke-peers :
      (name : String) (req : UnrevokeRequest) (db : Db)
      → (unrevoke cfg now auth name req db).1.peers ≡ db.peers
  unfolding unrevoke
  unrevoke-peers name req db = ground arith

  -- A ratification that does nothing, or that is made by a ratified witness.
  pub ratify-cases :
      (name : String) (req : PatchRequest) (db : Db)
      → ((ratify cfg now auth name req db).1 ≡ db)
        ⊎ ((is_ratified req.ratified_by db ≡ true)
            × ((ratify cfg now auth name req db).1 ≡ record db {
              peers = update_where (has_name name) (ratify_row now req) db.peers;
              ratifications = db.ratifications ++ audit_row name req ∷ [];
            }))
  unfolding ratify is_ratified
  ratify-cases name req db = ground arith

  ratify-StaysOut :
      (n name : String) (req : PatchRequest) (db : Db) (events : List BindingEvent)
      → req.ratified_by ≢ name
      → ratified_in n db.peers ≡ false
      → StaysOut
          (ratify_peer name req)
          n
          db
          (ratify cfg now auth name req (record db { binding_events = events })).1
  unfolding ratify_row
  ratify-StaysOut n name req db events other h =
      elim (ratify-cases name req (record db { binding_events = events })) [
        | inl e ↦ inl (subst (λ x. ratified_in n x.peers ≡ false) (sym e) h)
        | inr (w, e) ↦ elim (Bool-cases (name == n)) [
          | inl f ↦
              let same = (eq_iff name n).0 f in
              inr (record {
                request = req;
                call = ap (λ x. ratify_peer x req) same;
                other = subst (λ x. req.ratified_by ≢ x) same other;
                witness =
                    is_ratified_lem req.ratified_by db
                    ∙ sym (is_ratified_lem req.ratified_by (record db { binding_events = events }))
                    ∙ w;
                audit =
                    ap (λ x. x.ratifications) e
                    ∙ ap (λ x. db.ratifications ++ audit_row x req ∷ []) same;
              })
          | inr f ↦ inl (
              subst (λ x. ratified_in n x.peers ≡ false) (sym e)
                (ratified_in-update_where n (has_name name) (ratify_row now req) (λ p. refl)
                    (λ p a b.
                      absurd
                        (let h' = (eq_iff name n).1 (sym ((eq_iff p.name name).0 b) ∙ a) in cc))
                    db.peers
                  ∙ h))
        ]
      ]

  serve-StaysOut :
      (c : Call) (db : Db) (n : String)
      → ratified_in n db.peers ≡ false
      → StaysOut c n db (serve cfg now auth c db)
  unfolding serve peers_register peer_ratify peer_deregister peer_unrevoke
  serve-StaysOut (register_peer raw req) db n h =
      bound cfg now auth req.name "peers_register_mint" (register cfg now auth raw req) db
        (StaysOut (register_peer raw req) n db) (λ events. inl h)
        (λ events. inl (register-ratified_in n raw req (record db { binding_events = events }) ∙ h))
  serve-StaysOut (ratify_peer name req) db n h =
      bound cfg now auth req.ratified_by "peer_ratify"
        (raise_if (not req.ratified) 400
          >> (raise_if (req.ratified_by == name) 400 >> ratify cfg now auth name req))
        db (StaysOut (ratify_peer name req) n db) (λ events. inl h)
        (λ events.
          guard_keeps (not req.ratified) 400
            (raise_if (req.ratified_by == name) 400 >> ratify cfg now auth name req) _
            (StaysOut (ratify_peer name req) n db) (inl h)
            (λ _.
              guard_keeps (req.ratified_by == name) 400 (ratify cfg now auth name req) _
                (StaysOut (ratify_peer name req) n db) (inl h)
                (λ f.
                  ratify-StaysOut n name req db events
                    (λ e. let h' = (eq_iff req.ratified_by name).1 e in cc) h)))
  serve-StaysOut (deregister_peer name) db n h =
      bound cfg now auth name "peer_deregister" (deregister cfg now auth name) db
        (StaysOut (deregister_peer name) n db) (λ events. inl h)
        (λ events. inl (deregister-ratified_in n name (record db { binding_events = events }) h))
  serve-StaysOut (unrevoke_peer name req) db n h =
      bound cfg now auth req.witness "peer_unrevoke"
        (raise_if (req.witness == name) 403 >> unrevoke cfg now auth name req) db
        (StaysOut (unrevoke_peer name req) n db) (λ events. inl h)
        (λ events.
          guard_keeps (req.witness == name) 403 (unrevoke cfg now auth name req) _
            (StaysOut (unrevoke_peer name req) n db) (inl h)
            (λ _. inl (
              ap (ratified_in n) (unrevoke-peers name req (record db { binding_events = events }))
              ∙ h)))

  -- A peer that is not ratified is so after no request to the registry but a ratification of this peer in
  -- the name of another peer that is ratified, which adds exactly one row to the audit.
  pub serve-is_ratified :
      (c : Call) (db : Db) (peer : String)
      → is_ratified peer db ≡ false
      → (is_ratified peer (serve cfg now auth c db) ≡ false)
        ⊎ IsRatify c peer db (serve cfg now auth c db)
  serve-is_ratified c db peer h =
      elim (serve-StaysOut c db peer (sym (is_ratified_lem peer db) ∙ h)) [
        | inl out ↦ inl (is_ratified_lem peer (serve cfg now auth c db) ∙ out)
        | inr r ↦ inr r
      ]
