-- ===== src/Spool/Evidence.antt =====
-- What the checks of src/swarph_cli/peer_executor.py establish: the holder of a claim, and a receipt
-- that the spool's files bear out.
use swarph_cli.Prelude.{
  ℕ, ◌≤◌, String, Option, none, some, Bool, true, false, ◌&&◌, leb, ◌≡◌, refl, ap, subst, ◌∙◌,
  arith, leb→le, Bool-cases, Option-cases, eq_iff, inl, inr, string_eq, nat_eq, option_eq,
}
use swarph_cli.Prelude.Python.{
  Value, Fields, str, get, get_or_null, value_eq, is_strict_int, has_key, keys_are,
}
use swarph_cli.Prelude.Values.{value_eq-str}
use swarph_cli.Delivery.Digest.{is_digest}
use swarph_cli.Spool.Files.{Claim, PeerSpool, output_name}
use swarph_cli.Spool.Envelopes.{
  canonical_id, is_canonical, is_source_ref, has_receipt_fields, is_new_receipt, persisted_schema,
}
use swarph_cli.Spool.Claims.{are_names}
use swarph_cli.Spool.Results.{held, held_job, new_receipt, matches_files, is_accepted}

-- The job `id` runs for `peer` under the token.
pub record Holds (id peer : String) (token : ℕ) (job : Fields) (c : Claim) (s : PeerSpool)
    : Type 0 where
  pub named : canonical_id (str id) ≡ some id
  pub peer_named : canonical_id (str peer) ≡ some peer
  pub positive : 1 ≤ token
  pub runs : s.running id ≡ some job
  pub claim : s.claims id ≡ some c
  pub addressed : get_or_null "destination_peer" job ≡ str peer
  pub owner : c.destination_peer ≡ peer
  pub fence : c.fencing_token ≡ token

pub canonical_same :
    (id name : String) → canonical_id (str id) ≡ some name → canonical_id (str id) ≡ some id
unfolding canonical_id
canonical_same id name h = ground arith

names_are :
    (id peer : String)
    → are_names id peer ≡ true
    → (canonical_id (str id) ≡ some id) × (canonical_id (str peer) ≡ some peer)
names_are id peer h = elim (Option-cases (canonical_id (str id))) [
  | inl e ↦ absurd (let h' = rw (are_names, e) at h in cc)
  | inr (a, e) ↦ elim (Option-cases (canonical_id (str peer))) [
    | inl f ↦ absurd (let h' = rw (are_names, e, f) at h in cc)
    | inr (b, f) ↦ (canonical_same id a e, canonical_same peer b f)
  ]
]

held-some :
    (id peer : String) (token : ℕ) (job : Fields) (s : PeerSpool) (running : Option Fields)
    (claims : Option Claim)
    → are_names id peer ≡ true
    → leb 1 token ≡ true
    → s.running id ≡ running
    → s.claims id ≡ claims
    → held peer token running claims ≡ some job
    → (c : Claim) × Holds id peer token job c s
unfolding held
held-some id peer token job s (some k) (some c) n t r q h =
    let (named, peer_named) = names_are id peer n in
    let same : k ≡ job = ground arith in
    let addressed : value_eq (get_or_null "destination_peer" k) (str peer) ≡ true = ground arith in
    (
      c,
      record {
        named = named;
        peer_named = peer_named;
        positive = leb→le 1 token t;
        runs = r ∙ ap some same;
        claim = q;
        addressed =
            subst (λ j. get_or_null "destination_peer" j ≡ str peer) same
              (value_eq-str _ peer addressed);
        owner = ground (arith, eq_iff c.destination_peer peer);
        fence = ground (arith, eq_iff c.fencing_token token);
      },
    )
held-some id peer token job s (some k) none n t r q h = cc
held-some id peer token job s none (some c) n t r q h = cc
held-some id peer token job s none none n t r q h = cc

pub held_job-Holds :
    (id peer : String) (token : ℕ) (job : Fields) (s : PeerSpool)
    → held_job id peer token s ≡ some job
    → (c : Claim) × Holds id peer token job c s
unfolding held_job
held_job-Holds id peer token job s h = elim (Bool-cases (are_names id peer)) [
  | inr n ↦ absurd (let h' = rw n at h in cc)
  | inl n ↦ elim (Bool-cases (leb 1 token)) [
    | inr t ↦ absurd (let h' = rw (n, t) at h in cc)
    | inl t ↦ held-some id peer token job s _ _ n t refl refl (rw (n, t) at h)
  ]
]

pub is_canonical-true :
    (v : Value) (name : String) → canonical_id v ≡ some name → is_canonical v ≡ true
is_canonical-true v name h = rw (is_canonical, h) refl

all_seven :
    {a b c d e f g : Bool}
    → a ≡ true
    → b ≡ true
    → c ≡ true
    → d ≡ true
    → e ≡ true
    → f ≡ true
    → g ≡ true
    → (a && b && c && d && e && f && g) ≡ true
all_seven a b c d e f g = rw (a, b, c, d, e, f, g) refl

module _ (sha256 : String → String) where
  -- A receipt that the files bear out.
  pub is_accepted-intro :
      (r : Fields) (s : PeerSpool) (legacy : Bool) (id : String)
      → persisted_schema r ≡ some legacy
      → canonical_id (get_or_null "job_id" r) ≡ some id
      → matches_files sha256 legacy r
          (s.running id)
          (s.claims id)
          (s.outputs (output_name id (get_or_null "fencing_token" r)))
        ≡ true
      → is_accepted sha256 r s ≡ true
  unfolding is_accepted
  is_accepted-intro r s legacy id p n m = rw (is_accepted, p, n) m

  pub is_accepted-schema :
      (r : Fields) (s : PeerSpool)
      → is_accepted sha256 r s ≡ true
      → (legacy : Bool) × (persisted_schema r ≡ some legacy)
  unfolding is_accepted
  is_accepted-schema r s h = elim (Option-cases (persisted_schema r)) [
    | inl e ↦ absurd (let h' = rw (is_accepted, e) at h in cc)
    | inr (legacy, e) ↦ (legacy, e)
  ]

  pub is_accepted-files :
      (r : Fields) (s : PeerSpool) (legacy : Bool) (id : String)
      → persisted_schema r ≡ some legacy
      → canonical_id (get_or_null "job_id" r) ≡ some id
      → is_accepted sha256 r s ≡ true
      → matches_files sha256 legacy r
          (s.running id)
          (s.claims id)
          (s.outputs (output_name id (get_or_null "fencing_token" r)))
        ≡ true
  unfolding is_accepted
  is_accepted-files r s legacy id p n h = rw (is_accepted, p, n) at h

  -- The receipt that is produced has the current schema.
  pub new_receipt-schema :
      (id peer : String) (token : ℕ) (text : String) (ref : Fields) (payload envelope : String)
      (source : Value)
      → canonical_id (str id) ≡ some id
      → canonical_id (str peer) ≡ some peer
      → leb 1 token ≡ true
      → is_strict_int source ≡ true
      → is_digest (str (sha256 text)) ≡ true
      → is_digest (str payload) ≡ true
      → is_digest (str envelope) ≡ true
      → is_source_ref ref source ≡ true
      → persisted_schema (new_receipt sha256 id peer token text ref payload envelope source)
        ≡ some false
  unfolding new_receipt persisted_schema is_new_receipt has_receipt_fields keys_are get_or_null get
      has_key
  new_receipt-schema id peer token text ref payload envelope source i p t n d e f r =
      let fields =
        all_seven refl (is_canonical-true (str id) id i) (is_canonical-true (str peer) peer p) t n d
          r in
      rw fields (rw (e, f) refl)
