-- ===== src/Spool/Acceptance.antt =====
-- Receipts of src/swarph_cli/peer_executor.py at the moment they are written: what `accept_receipt` and
-- `produce_receipt` have checked makes the receipt one that validates.
use swarph_cli.Prelude.{
  ℕ, String, Option, none, some, Bool, true, false, ◌&&◌, ◌∷◌, ◌≡◌, refl, sym, arith, Bool-cases,
  Option-cases, inl, inr, string_eq, nat_eq, option_eq,
}
use swarph_cli.Prelude.Python.{
  Value, Fields, int, str, get, get_or_null, value_eq, is_strict_int, has_key, keys_are,
}
use swarph_cli.Prelude.Values.{
  value_eq-str, value_eq_str_refl, value_eq-int_flip, value_eq_int_refl, value_eq_strict_refl,
  value_eq-strict, keys_are-other,
}
use swarph_cli.Spool.Files.{Claim, Output}
use swarph_cli.Spool.Envelopes.{
  canonical_id, is_canonical, is_job, legacy_fields, receipt_fields, has_receipt_fields,
  is_new_receipt, persisted_schema, envelope_digest,
}
use swarph_cli.Spool.Evidence.{canonical_same}
use swarph_cli.Spool.Results.{new_receipt, matches_files, fits_receipt}

all_five :
    {a b c d e : Bool}
    → a ≡ true
    → b ≡ true
    → c ≡ true
    → d ≡ true
    → e ≡ true
    → (a && b && c && d && e) ≡ true
all_five a b c d e = rw (a, b, c, d, e) refl

-- What equals a text equals it the other way round.
flip_text : (v w : Value) → is_canonical w ≡ true → value_eq v w ≡ true → value_eq w v ≡ true
unfolding canonical_id
flip_text v (str s) k h = rw (value_eq-str v s h) (value_eq_str_refl s)
flip_text v w k h = ground arith

flip_strict :
    (v w : Value)
    → is_strict_int v ≡ true
    → is_strict_int w ≡ true
    → value_eq v w ≡ true
    → value_eq w v ≡ true
flip_strict v w p q h = rw (value_eq-strict v w p q h) (value_eq_strict_refl w q)

-- A job with a digest is valid.
pub envelope_digest-is_job :
    (sha256 : String → String) (job : Fields) (d : String)
    → envelope_digest sha256 job ≡ some d
    → is_job job ≡ true
unfolding envelope_digest
envelope_digest-is_job sha256 job d h = elim (Bool-cases (is_job job)) [
  | inl e ↦ e
  | inr e ↦ absurd (let h' = rw (envelope_digest, e) at h in cc)
]

pub is_job-source :
    (job : Fields) → is_job job ≡ true → is_strict_int (get_or_null "source_dm_id" job) ≡ true
unfolding is_job
is_job-source job h = ground arith

-- The two names of a valid job.
pub is_job-names :
    (job : Fields)
    → is_job job ≡ true
    → (is_canonical (get_or_null "job_id" job) ≡ true)
      × (is_canonical (get_or_null "destination_peer" job) ≡ true)
unfolding is_job
is_job-names job h = (ground arith, ground arith)

pub canonical-is_canonical :
    (s : String) → is_canonical (str s) ≡ true → canonical_id (str s) ≡ some s
canonical-is_canonical s h = elim (Option-cases (canonical_id (str s))) [
  | inl e ↦ absurd (let h' = rw (is_canonical, e) at h in cc)
  | inr (name, e) ↦ canonical_same s name e
]

-- The parts of a receipt of the current schema.
pub record IsReceipt (r : Fields) : Type 0 where
  pub keys : keys_are receipt_fields r ≡ true
  pub named : is_canonical (get_or_null "job_id" r) ≡ true
  pub addressed : is_canonical (get_or_null "destination_peer" r) ≡ true
  pub sourced : is_strict_int (get_or_null "source_dm_id" r) ≡ true

pub is_new_receipt-IsReceipt : (r : Fields) → is_new_receipt r ≡ true → IsReceipt r
unfolding is_new_receipt has_receipt_fields
is_new_receipt-IsReceipt r h = record {
  keys = ground arith;
  named = ground arith;
  addressed = ground arith;
  sourced = ground arith;
}

-- A receipt of the current schema has not the legacy one.
pub is_new_receipt-schema : (r : Fields) → is_new_receipt r ≡ true → persisted_schema r ≡ some false
unfolding persisted_schema has_key
is_new_receipt-schema r h =
    let not_legacy =
      keys_are-other ("envelope_digest" ∷ legacy_fields) legacy_fields "payload_digest" r refl
        (is_new_receipt-IsReceipt r h).keys in
    rw (persisted_schema, not_legacy, h) refl

module _ (sha256 : String → String) where
  -- What `accept_receipt` has compared is what the validation compares.
  pub fits-matches :
      (r : Fields) (running : Option Fields) (claims : Option Claim) (outputs : Option Output)
      → is_new_receipt r ≡ true
      → fits_receipt sha256 r running claims outputs ≡ true
      → matches_files sha256 false r running claims outputs ≡ true
  unfolding fits_receipt matches_files
  fits-matches r (some job) (some c) (some out) n h =
      let valid : is_job job ≡ true = elim (Option-cases (envelope_digest sha256 job)) [
        | inl e ↦ absurd (let h' = rw e at h in ground arith)
        | inr (d, e) ↦ envelope_digest-is_job sha256 job d e
      ] in
      let addressed : value_eq (get_or_null "destination_peer" job)
            (get_or_null "destination_peer" r)
          ≡ true =
        ground arith in
      let sourced : value_eq (get_or_null "source_dm_id" job) (get_or_null "source_dm_id" r)
          ≡ true =
        ground arith in
      let fence : value_eq (int c.fencing_token) (get_or_null "fencing_token" r) ≡ true =
        ground arith in
      let parts = is_new_receipt-IsReceipt r n in
      all_five (flip_text _ _ parts.addressed addressed)
        (flip_strict _ _ (is_job-source job valid) parts.sourced sourced)
        (value_eq-int_flip c.fencing_token _ fence) (ground arith) (ground arith)
  fits-matches r (some job) (some c) none n h = cc
  fits-matches r (some job) none outputs n h = cc
  fits-matches r none claims outputs n h = cc

  -- What the produced receipt holds.
  pub record HasFields (r : Fields) (id peer : String) (token : ℕ) (text envelope : String)
      (source : Value) : Type 0 where
    pub job_id : get_or_null "job_id" r ≡ str id
    pub source_dm_id : get_or_null "source_dm_id" r ≡ source
    pub destination_peer : get_or_null "destination_peer" r ≡ str peer
    pub fencing_token : get_or_null "fencing_token" r ≡ int token
    pub output_digest : get_or_null "output_digest" r ≡ str (sha256 text)
    pub envelope_digest : get_or_null "envelope_digest" r ≡ str envelope

  pub new_receipt-fields :
      (id peer : String) (token : ℕ) (text : String) (ref : Fields) (payload envelope : String)
      (source : Value)
      → HasFields
          (new_receipt sha256 id peer token text ref payload envelope source)
          id
          peer
          token
          text
          envelope
          source
  unfolding new_receipt get_or_null get
  new_receipt-fields id peer token text ref payload envelope source = record {
    job_id = refl;
    source_dm_id = refl;
    destination_peer = refl;
    fencing_token = refl;
    output_digest = refl;
    envelope_digest = refl;
  }

  pub new-matches :
      (r : Fields) (id peer : String) (token : ℕ) (text envelope : String) (source : Value)
      (job : Fields) (c : Claim) (out : Output)
      → HasFields r id peer token text envelope source
      → get_or_null "destination_peer" job ≡ str peer
      → get_or_null "source_dm_id" job ≡ source
      → is_strict_int source ≡ true
      → c.fencing_token ≡ token
      → envelope_digest sha256 job ≡ some envelope
      → out.output_digest ≡ sha256 text
      → matches_files sha256 false r (some job) (some c) (some out) ≡ true
  unfolding matches_files
  new-matches r id peer token text envelope source job c out f addressed sourced strict fence env
        digest =
      let to_peer : value_eq (get_or_null "destination_peer" r) (get_or_null "destination_peer" job)
          ≡ true =
        rw (f.destination_peer, addressed) (value_eq_str_refl peer) in
      let of_source : value_eq (get_or_null "source_dm_id" r) (get_or_null "source_dm_id" job)
          ≡ true =
        rw (f.source_dm_id, sourced) (value_eq_strict_refl source strict) in
      let at_fence : value_eq (get_or_null "fencing_token" r) (int c.fencing_token) ≡ true =
        rw f.fencing_token (value_eq_int_refl token c.fencing_token (sym fence)) in
      let of_job : value_eq (get_or_null "envelope_digest" r) (str envelope) ≡ true =
        rw f.envelope_digest (value_eq_str_refl envelope) in
      let of_text : value_eq (str out.output_digest) (get_or_null "output_digest" r) ≡ true =
        rw (f.output_digest, digest) (value_eq_str_refl (sha256 text)) in
      rw (to_peer, of_source, at_fence, of_text) (ground (arith, env, of_job))
