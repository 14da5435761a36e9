-- ===== src/Gateway/Registry/Revoked.antt =====
-- How long a revoked token of src/swarph_cli/gateway/server.py stays revoked.
use swarph_cli.Prelude.{
  ℕ, String, Option, none, some, true, false, not, ◌&&◌, List, [], ◌∷◌, ◌++◌, ◌==◌, ◌≡◌, ◌≢◌, ◌⊎◌,
  inl, inr, refl, sym, subst, ap, arith, Bool-cases, Option-cases, string_eq, nat_eq, option_eq,
  eq_iff,
}
use swarph_cli.Gateway.Db.{Db, BindingEvent, PeerToken, Revocation}
use swarph_cli.Gateway.Monad.{raise_if, ◌>>◌}
use swarph_cli.Gateway.Config.{Config}
use swarph_cli.Gateway.Auth.{AuthContext, is_revoked, latest_action}
use swarph_cli.Gateway.Registry.Bound.{guard_keeps, bound}
use swarph_cli.Gateway.PeerRows.{
  RegisterRequest, PatchRequest, UnrevokeRequest, peer_row, is_ratified, max_token, revoke_rows,
  delete_peer,
}
use swarph_cli.Gateway.Registry.{
  Call, register_peer, ratify_peer, deregister_peer, unrevoke_peer, register, ratify, deregister,
  unrevoke, peers_register, peer_ratify, peer_deregister, peer_unrevoke, serve,
}

later_action : Option String → Option String → Option String
later_action none old = old
later_action (some a) old = some a

latest_action-append :
    (peer : String) (gen : ℕ) (log rows : List Revocation)
    → latest_action peer gen (log ++ rows)
      ≡ later_action (latest_action peer gen rows) (latest_action peer gen log)
unfolding latest_action later_action
latest_action-append peer gen [] rows = elim (Option-cases (latest_action peer gen rows)) [
  | inl e ↦ rw e refl
  | inr (a, e) ↦ rw e refl
]
latest_action-append peer gen (r ∷ log) rows =
    rw (latest_action-append peer gen log rows) (elim (Option-cases (latest_action peer gen rows)) [
      | inl e ↦ rw e refl
      | inr (a, e) ↦ rw e refl
    ])

revoke_rows-latest :
    (now : ℕ) (name : String) (ts : List PeerToken) (peer : String) (gen : ℕ)
    → (latest_action peer gen (revoke_rows now name ts) ≡ none)
      ⊎ (latest_action peer gen (revoke_rows now name ts) ≡ some "revoke")
unfolding revoke_rows latest_action
revoke_rows-latest now name [] peer gen = inl refl
revoke_rows-latest now name (t ∷ ts) peer gen =
    let rest = revoke_rows-latest now name ts peer gen in ground arith

is_revoked-revoke_rows :
    (now : ℕ) (name : String) (ts : List PeerToken) (log : List Revocation) (peer : String)
    (gen : ℕ)
    → is_revoked log peer gen ≡ true
    → is_revoked (log ++ revoke_rows now name ts) peer gen ≡ true
unfolding is_revoked later_action
is_revoked-revoke_rows now name ts log peer gen h = elim (revoke_rows-latest now name ts peer gen) [
  | inl e ↦ rw (is_revoked, latest_action-append peer gen log (revoke_rows now name ts), e) h
  | inr e ↦ rw (is_revoked, latest_action-append peer gen log (revoke_rows now name ts), e) refl
]

is_revoked-other :
    (log : List Revocation) (r : Revocation) (peer : String) (gen : ℕ)
    → (r.peer == peer && r.key_generation == gen) ≡ false
    → is_revoked log peer gen ≡ true
    → is_revoked (log ++ r ∷ []) peer gen ≡ true
unfolding is_revoked latest_action later_action
is_revoked-other log r peer gen n h =
    rw (is_revoked, latest_action-append peer gen log (r ∷ []), n) h

-- Another peer than the token's, ratified, that holds a token which is not revoked.
pub record IsWitness (witness peer : String) (db : Db) : Type 0 where
  pub other : witness ≢ peer
  pub ratified : is_ratified witness db ≡ true
  pub generation : ℕ
  pub holds : max_token witness db.peer_tokens ≡ some generation
  pub live : is_revoked db.revocations witness generation ≡ false

-- The call un-revokes exactly this token, vouched for by a witness.
pub record IsUnrevoke (c : Call) (peer : String) (gen : ℕ) (db : Db) : Type 0 where
  pub request : UnrevokeRequest
  pub call : c ≡ unrevoke_peer peer request
  pub generation : request.key_generation ≡ gen
  pub witness : IsWitness request.witness peer db

ends : (a b : String) (m n : ℕ) → (a == b && m == n) ≡ true → (a ≡ b) × (m ≡ n)
ends a b m n h = ground (arith, eq_iff a b, eq_iff m n)

module _ (cfg : Config) (now : ℕ) (auth : AuthContext) where
  register-revocations :
      (raw : String) (req : RegisterRequest) (db : Db)
      → (register cfg now auth raw req db).1.revocations ≡ db.revocations
  unfolding register
  register-revocations raw req db = ground arith

  ratify-revocations :
      (name : String) (req : PatchRequest) (db : Db)
      → (ratify cfg now auth name req db).1.revocations ≡ db.revocations
  unfolding ratify
  ratify-revocations name req db = ground arith

  deregister-is_revoked :
      (name : String) (db : Db) (peer : String) (gen : ℕ)
      → is_revoked db.revocations peer gen ≡ true
      → is_revoked (deregister cfg now auth name db).1.revocations peer gen ≡ true
  unfolding deregister delete_peer
  deregister-is_revoked name db peer gen h =
      let kept = is_revoked-revoke_rows now name db.peer_tokens db.revocations peer gen h in
      ground arith

  unrevoke-is_revoked :
      (name : String) (req : UnrevokeRequest) (db : Db) (peer : String) (gen : ℕ)
      → req.witness ≢ name
      → is_revoked db.revocations peer gen ≡ true
      → (is_revoked (unrevoke cfg now auth name req db).1.revocations peer gen ≡ true)
        ⊎ ((name ≡ peer) × (req.key_generation ≡ gen) × IsWitness req.witness name db)
  unfolding unrevoke is_ratified
  unrevoke-is_revoked name req db peer gen other h =
      elim (Bool-cases (is_revoked db.revocations name req.key_generation)) [
        | inr a ↦ inl (rw (unrevoke, a) h)
        | inl a ↦ elim (Option-cases (peer_row req.witness db)) [
          | inl b ↦ inl (rw (unrevoke, a, b) h)
          | inr (w, b) ↦ elim (Bool-cases w.ratified) [
            | inr c ↦ inl (rw (unrevoke, a, b, c) h)
            | inl c ↦ elim (Option-cases (max_token req.witness db.peer_tokens)) [
              | inl d ↦ inl (rw (unrevoke, a, b, c, d) h)
              | inr (g, d) ↦ elim (Bool-cases (is_revoked db.revocations req.witness g)) [
                | inl e ↦ inl (rw (unrevoke, a, b, c, d, e) h)
                | inr e ↦ elim (Bool-cases (name == peer && req.key_generation == gen)) [
                  | inr f ↦ inl (
                      rw (unrevoke, a, b, c, d, e) (is_revoked-other db.revocations _ peer gen f h))
                  | inl f ↦ inr (
                      let (p, q) = ends name peer req.key_generation gen f in
                      (
                        p,
                        q,
                        record {
                          other = other;
                          ratified = rw (is_ratified, b) c;
                          generation = g;
                          holds = d;
                          live = e;
                        },
                      ))
                ]
              ]
            ]
          ]
        ]
      ]

  IsWitness-binding :
      (witness peer : String) (db : Db) (events : List BindingEvent)
      → IsWitness witness peer (record db { binding_events = events })
      → IsWitness witness peer db
  unfolding is_ratified peer_row
  IsWitness-binding witness peer db events w = record {
    other = w.other;
    ratified = w.ratified;
    generation = w.generation;
    holds = w.holds;
    live = w.live;
  }

  abbrev Stays : Call → Db → String → ℕ → Db → Type 0
  Stays c db peer gen x = (is_revoked x.revocations peer gen ≡ true) ⊎ IsUnrevoke c peer gen db

  unrevoke_peer-is_revoked :
      (name : String) (req : UnrevokeRequest) (db : Db) (peer : String) (gen : ℕ)
      → is_revoked db.revocations peer gen ≡ true
      → Stays (unrevoke_peer name req) db peer gen (peer_unrevoke cfg now auth name req db).1
  unfolding peer_unrevoke
  unrevoke_peer-is_revoked name req db peer gen h =
      bound cfg now auth req.witness "peer_unrevoke"
        (raise_if (req.witness == name) 403 >> unrevoke cfg now auth name req) db
        (Stays (unrevoke_peer name req) db peer gen) (λ events. inl h)
        (λ events.
          guard_keeps (req.witness == name) 403 (unrevoke cfg now auth name req) _
            (Stays (unrevoke_peer name req) db peer gen) (inl h)
            (λ n.
              elim (unrevoke-is_revoked name req (record db { binding_events = events }) peer gen
                (λ e. let h' = (eq_iff req.witness name).1 e in cc) h) [
                  | inl kept ↦ inl kept
                  | inr (same, g, w) ↦ inr (record {
                    request = req;
                    call = ap (λ x. unrevoke_peer x req) same;
                    generation = g;
                    witness =
                        subst (λ x. IsWitness req.witness x db) same
                          (IsWitness-binding req.witness name db events w);
                  })
                ]))

  -- A token that is revoked stays revoked, whatever is asked of the registry, but for an un-revocation of
  -- exactly this token in the name of a witness: another peer than the token's, ratified, that holds a
  -- token of its own whose latest generation is not revoked.
  pub serve-is_revoked :
      (c : Call) (db : Db) (peer : String) (gen : ℕ)
      → is_revoked db.revocations peer gen ≡ true
      → (is_revoked (serve cfg now auth c db).revocations peer gen ≡ true)
        ⊎ IsUnrevoke c peer gen db
  unfolding serve peers_register peer_ratify peer_deregister
  serve-is_revoked (register_peer raw req) db peer gen h =
      bound cfg now auth req.name "peers_register_mint" (register cfg now auth raw req) db
        (Stays (register_peer raw req) db peer gen) (λ events. inl h)
        (λ events. inl (
          subst (λ l. is_revoked l peer gen ≡ true)
            (sym (register-revocations raw req (record db { binding_events = events }))) h))
  serve-is_revoked (ratify_peer name req) db peer gen h =
      bound cfg now auth req.ratified_by "peer_ratify"
        (raise_if (not req.ratified) 400
          >> (raise_if (req.ratified_by == name) 400 >> ratify cfg now auth name req))
        db (Stays (ratify_peer name req) db peer gen) (λ events. inl h)
        (λ events.
          guard_keeps (not req.ratified) 400
            (raise_if (req.ratified_by == name) 400 >> ratify cfg now auth name req) _
            (Stays (ratify_peer name req) db peer gen) (inl h)
            (λ _.
              guard_keeps (req.ratified_by == name) 400 (ratify cfg now auth name req) _
                (Stays (ratify_peer name req) db peer gen) (inl h)
                (λ _. inl (
                  subst (λ l. is_revoked l peer gen ≡ true)
                    (sym (ratify-revocations name req (record db { binding_events = events })))
                    h))))
  serve-is_revoked (deregister_peer name) db peer gen h =
      bound cfg now auth name "peer_deregister" (deregister cfg now auth name) db
        (Stays (deregister_peer name) db peer gen) (λ events. inl h)
        (λ events.
          inl (deregister-is_revoked name (record db { binding_events = events }) peer gen h))
  serve-is_revoked (unrevoke_peer name req) db peer gen h =
      unrevoke_peer-is_revoked name req db peer gen h
