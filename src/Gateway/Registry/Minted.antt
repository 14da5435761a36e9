-- ===== src/Gateway/Registry/Minted.antt =====
-- The generation of a token that `peers_register` of src/swarph_cli/gateway/server.py mints.
use swarph_cli.Prelude.{
  ℕ, ◌+◌, ◌<◌, String, Option, none, some, false, List, [], ◌∷◌, ◌++◌, ◌==◌, ◌≡◌, inl, inr, refl,
  ap, ◌∙◌, arith, Bool-cases, Option-cases, string_eq, nat_eq, option_eq, eq_iff, All,
}
use swarph_cli.Gateway.Db.{Db, BindingEvent, PeerToken, Revocation}
use swarph_cli.Gateway.Monad.{Result, ok}
use swarph_cli.Gateway.Config.{Config}
use swarph_cli.Gateway.Auth.{AuthContext, is_revoked, latest_action}
use swarph_cli.Gateway.PeerRows.{
  RegisterRequest, Registered, larger, or_zero, max_token, max_revocation, high_water_mark,
  new_generation, upsert_peer, owner_of,
}
use swarph_cli.Gateway.Registry.{register, peers_register}
use swarph_cli.Gateway.Registry.Bound.{bound_reply}

larger-bounds : (k n : ℕ) (o : Option ℕ) → larger k o < n → (k < n) × (or_zero o < n)
larger-bounds k n none h = ground arith
larger-bounds k n (some m) h = ground arith

latest_action-above :
    (peer : String) (n : ℕ) (rs : List Revocation)
    → or_zero (max_revocation peer rs) < n
    → latest_action peer n rs ≡ none
unfolding max_revocation latest_action
latest_action-above peer n [] h = refl
latest_action-above peer n (r ∷ rs) h = elim (Bool-cases (r.peer == peer)) [
  | inr e ↦ rw (latest_action-above peer n rs (rw e at h)) (rw e refl)
  | inl e ↦
      let (below, rest) = larger-bounds r.key_generation n (max_revocation peer rs) (rw e at h) in
      rw (latest_action-above peer n rs rest) (ground (arith, eq_iff r.key_generation n))
]

max_token-bounds :
    (peer : String) (ts : List PeerToken) (n : ℕ)
    → or_zero (max_token peer ts) < n
    → All (λ t. t.peer ≡ peer → t.key_generation < n) ts
unfolding max_token
max_token-bounds peer [] n h = tt
max_token-bounds peer (t ∷ ts) n h = elim (Bool-cases (t.peer == peer)) [
  | inr e ↦
      ((λ same. let h' = (eq_iff t.peer peer).1 same in cc), max_token-bounds peer ts n (rw e at h))
  | inl e ↦
      let (below, rest) = larger-bounds t.key_generation n (max_token peer ts) (rw e at h) in
      ((λ same. below), max_token-bounds peer ts n rest)
]

new_generation-above :
    (peer : String) (db : Db) (gen : ℕ)
    → new_generation peer db ≡ some gen
    → gen ≡ high_water_mark peer db + 1
unfolding new_generation
new_generation-above peer db gen h = ground arith

-- A token that is stored beside the others, of a generation that is greater than that of every token of
-- the peer and not revoked.
pub record IsFresh (peer : String) (db after : Db) : Type 0 where
  pub row : PeerToken
  pub owner : row.peer ≡ peer
  pub stored : after.peer_tokens ≡ db.peer_tokens ++ row ∷ []
  pub greater : All (λ t. t.peer ≡ peer → t.key_generation < row.key_generation) db.peer_tokens
  pub live : is_revoked after.revocations peer row.key_generation ≡ false

new_generation-live :
    (peer : String) (db : Db) (gen : ℕ)
    → new_generation peer db ≡ some gen
    → (is_revoked db.revocations peer gen ≡ false)
      × All (λ t. t.peer ≡ peer → t.key_generation < gen) db.peer_tokens
unfolding is_revoked high_water_mark
new_generation-live peer db gen h =
    let top = new_generation-above peer db gen h in
    let both : (or_zero (max_token peer db.peer_tokens) < gen)
        × (or_zero (max_revocation peer db.revocations) < gen) =
      larger-bounds _ gen (max_revocation peer db.revocations) (omega (arith, top)) in
    (
      rw (is_revoked, latest_action-above peer gen db.revocations both.1) refl,
      max_token-bounds peer db.peer_tokens gen both.0,
    )

-- A reply with a token comes with a fresh row.
abbrev GivesFresh : String → Db → Result Registered → Db → Type 0
GivesFresh name db reply after =
    (r : Registered) (token : String)
    → reply ≡ ok r
    → r.peer_token ≡ some token
    → IsFresh name db after

module _ (cfg : Config) (now : ℕ) (auth : AuthContext) where
  abbrev upserted : RegisterRequest → Db → Db
  upserted req db = record db { peers = upsert_peer now (owner_of auth) req db.peers }

  abbrev minted_row : String → String → ℕ → PeerToken
  minted_row name raw gen = record {
    peer = name;
    key_generation = gen;
    token_sha256 = cfg.sha256 raw;
    minted_at = now;
  }

  register-minted :
      (raw : String) (req : RegisterRequest) (db : Db) (r : Registered) (token : String)
      → (register cfg now auth raw req db).0 ≡ ok r
      → r.peer_token ≡ some token
      → (gen : ℕ) × (new_generation req.name (upserted req db) ≡ some gen)
        × ((register cfg now auth raw req db).1 ≡ record (upserted req db) {
          peer_tokens = db.peer_tokens ++ minted_row req.name raw gen ∷ [];
        })
  unfolding register
  register-minted raw req db r token h e =
      elim (Option-cases (new_generation req.name (upserted req db))) [
        | inl a ↦ absurd (let h' = rw (register, a) at h in ground arith)
        | inr (gen, a) ↦ (gen, a, ground arith)
      ]

  register-GivesFresh :
      (raw : String) (req : RegisterRequest) (db : Db) (events : List BindingEvent)
      → let x = record db { binding_events = events } in
        GivesFresh req.name db
          (register cfg now auth raw req x).0
          (register cfg now auth raw req x).1
  register-GivesFresh raw req db events r token h e =
      let x = record db { binding_events = events } in
      let (gen, made, after) = register-minted raw req x r token h e in
      let (live, greater) = new_generation-live req.name (upserted req x) gen made in
      record {
        row = minted_row req.name raw gen;
        owner = refl;
        stored = ap (λ d. d.peer_tokens) after;
        greater = greater;
        live = ap (λ d. is_revoked d.revocations req.name gen) after ∙ live;
      }

  -- No token is born revoked: a registration that answers with a token has stored one row for the peer,
  -- whose generation is greater than those of all the peer's tokens and is not revoked, also where earlier
  -- tokens of the peer were revoked or purged; the other rows stay.
  pub peers_register-IsFresh :
      (raw : String) (req : RegisterRequest) (db : Db) (r : Registered) (token : String)
      → (peers_register cfg now auth raw req db).0 ≡ ok r
      → r.peer_token ≡ some token
      → IsFresh req.name db (peers_register cfg now auth raw req db).1
  unfolding peers_register
  peers_register-IsFresh raw req db r token h e =
      bound_reply cfg now auth req.name "peers_register_mint" (register cfg now auth raw req) db
        (GivesFresh req.name db) (λ code x r token h e. absurd (cc))
        (register-GivesFresh raw req db) r token h e
