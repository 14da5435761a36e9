-- ===== src/Spool/Steps.antt =====
-- Every call of src/swarph_cli/peer_executor.py that writes, cut at any point, as guarded writes.
use swarph_cli.Prelude.{
  ℕ, String, some, true, false, ◌&&◌, take, leb, ◌≡◌, refl, sym, ap, subst, ◌∙◌, arith, Bool-cases,
  Option-cases, eq_iff, inl, inr, string_eq, nat_eq, option_eq,
}
use swarph_cli.Prelude.Python.{
  Value, Fields, int, str, dict, get, get_or_null, value_eq, is_strict_int,
}
use swarph_cli.Prelude.Values.{get_or_null-some}
use swarph_cli.Delivery.Digest.{is_digest}
use swarph_cli.Spool.Files.{
  Claim, Output, PeerSpool, write_text, write_receipt, output_name, write_atomic, write_all,
}
use swarph_cli.Spool.Envelopes.{canonical_id, is_source_ref, is_new_receipt, envelope_digest}
use swarph_cli.Spool.Results.{
  held_job, new_output, output_digest, write_output, new_receipt, matches_files, is_accepted,
  same_output, finish, can_produce, produce_receipt, fits_receipt, accept_receipt,
}
use swarph_cli.Spool.Requests.{Request, writes, cut}
use swarph_cli.Spool.Changes.{
  produced, received, Changes, IsSpool, put_same, cut_one, cut_two, no_writes, enqueue-Changes,
  claim-Changes, reclaim-Changes,
}
use swarph_cli.Spool.Evidence.{Holds, held_job-Holds, is_accepted-intro, new_receipt-schema}
use swarph_cli.Spool.Acceptance.{
  envelope_digest-is_job, is_job-source, is_new_receipt-schema, fits-matches, new_receipt-fields,
  new-matches,
}

-- `hexdigest` of SHA-256 is 64 hexadecimal digits.
abbrev pub HasDigests : (String → String) → Type 0
HasDigests sha256 = (text : String) → is_digest (str (sha256 text)) ≡ true

-- The conditions under which `produce_receipt` goes on.
pub record CanProduce (sha256 : String → String) (ref : Fields) (payload envelope : String)
    (job : Fields) (source : Value) : Type 0 where
  pub payload_ok : is_digest (str payload) ≡ true
  pub envelope_ok : is_digest (str envelope) ≡ true
  pub ref_ok : is_source_ref ref source ≡ true
  pub digest : envelope_digest sha256 job ≡ some envelope

module _ (sha256 : String → String) where
  new_output-digest :
      (id peer : String) (token : ℕ) (text : String) (source : Value)
      → let out = new_output sha256 id peer token text source in
        out.output_digest ≡ output_digest sha256 out.text
  unfolding new_output
  new_output-digest id peer token text source = refl

  write_output-Changes :
      (n : ℕ) (id peer : String) (token : ℕ) (text : String) (s : PeerSpool)
      → Changes sha256 s (write_all (take n (write_output sha256 id peer token text s).1) s)
  unfolding write_output
  write_output-Changes n id peer token text s = elim (Option-cases (held_job id peer token s)) [
    | inl h ↦ rw (write_output, h) (no_writes sha256 n s)
    | inr (job, h) ↦ elim (Option-cases (s.outputs (output_name id (int token)))) [
      | inr (old, o) ↦ rw (write_output, h, o) (no_writes sha256 n s)
      | inl o ↦ elim (Option-cases (get "source_dm_id" job)) [
        | inl g ↦ rw (write_output, h, o, g) (no_writes sha256 n s)
        | inr (source, g) ↦
            rw (write_output, h, o, g)
              (cut_one sha256 n s (write_text _ _) (
                produced (output_name id (int token)) _ o
                  (new_output-digest id peer token text source)))
      ]
    ]
  ]

  accept_receipt-Changes :
      (n : ℕ) (r : Fields) (s : PeerSpool)
      → Changes sha256 s (write_all (take n (accept_receipt sha256 r s).1) s)
  unfolding accept_receipt
  accept_receipt-Changes n r s = elim (Bool-cases (is_new_receipt r)) [
    | inr b ↦ rw (accept_receipt, b) (no_writes sha256 n s)
    | inl b ↦ elim (Option-cases (canonical_id (get_or_null "job_id" r))) [
      | inl i ↦ rw (accept_receipt, b, i) (no_writes sha256 n s)
      | inr (id, i) ↦
          let out = s.outputs (output_name id (get_or_null "fencing_token" r)) in
          elim (Bool-cases (fits_receipt sha256 r (s.running id) (s.claims id) out)) [
            | inr f ↦ rw (accept_receipt, b, i, f) (no_writes sha256 n s)
            | inl f ↦ elim (Option-cases (s.receipts id)) [
              | inr (old, e) ↦ rw (accept_receipt, b, i, f, e) (no_writes sha256 n s)
              | inl e ↦
                  rw (accept_receipt, b, i, f, e)
                    (cut_one sha256 n s (write_receipt id r) (
                      received id r e i (
                        is_accepted-intro sha256 r s false id (is_new_receipt-schema r b) i
                          (fits-matches sha256 r (s.running id) (s.claims id) out b f))))
            ]
          ]
    ]
  ]

  module _ (digests : HasDigests sha256) where
    -- A receipt that was built for the holder is accepted where the output stands.
    pub produced-accepted :
        (id peer : String) (token : ℕ) (text : String) (ref : Fields) (payload envelope : String)
        (source : Value) (job : Fields) (c : Claim) (out : Output) (s t : PeerSpool)
        → Holds id peer token job c s
        → get "source_dm_id" job ≡ some source
        → CanProduce sha256 ref payload envelope job source
        → t.running id ≡ s.running id
        → t.claims id ≡ s.claims id
        → t.outputs (output_name id (int token)) ≡ some out
        → out.output_digest ≡ sha256 text
        → is_accepted sha256 (new_receipt sha256 id peer token text ref payload envelope source) t
          ≡ true
    produced-accepted id peer token text ref payload envelope source job c out s t h g can run cl o
          d =
        let r = new_receipt sha256 id peer token text ref payload envelope source in
        let f = new_receipt-fields sha256 id peer token text ref payload envelope source in
        let sourced = get_or_null-some "source_dm_id" job source g in
        let strict : is_strict_int source ≡ true =
          subst (λ v. is_strict_int v ≡ true) sourced
            (is_job-source job (envelope_digest-is_job sha256 job envelope can.digest)) in
        let token_ok : leb 1 token ≡ true = let p = h.positive in ground arith in
        is_accepted-intro sha256 r t false id
          (new_receipt-schema sha256 id peer token text ref payload envelope source h.named
            h.peer_named token_ok strict (digests text) can.payload_ok can.envelope_ok can.ref_ok)
          (ap canonical_id f.job_id ∙ h.named)
          (subst (λ o. matches_files sha256 false r (t.running id) (t.claims id) o ≡ true)
            (sym (ap (λ v. t.outputs (output_name id v)) f.fencing_token ∙ o))
            (rw (run, cl, h.runs, h.claim)
              (new-matches sha256 r id peer token text envelope source job c out f h.addressed
                sourced strict h.fence can.digest d)))

  pub same_output-digest :
      (a b : Output) → same_output a b ≡ true → a.output_digest ≡ b.output_digest
  unfolding same_output
  same_output-digest a b h = ground (arith, eq_iff a.output_digest b.output_digest)

  finish-Changes :
      (n : ℕ) (id : String) (r : Fields) (out : Output) (name : String) (s : PeerSpool)
      → canonical_id (get_or_null "job_id" r) ≡ some id
      → out.output_digest ≡ output_digest sha256 out.text
      → ((t : PeerSpool) (o : Output)
          → t.running id ≡ s.running id
          → t.claims id ≡ s.claims id
          → t.outputs name ≡ some o
          → o.output_digest ≡ out.output_digest
          → is_accepted sha256 r t ≡ true)
      → Changes sha256 s
          (write_all (take n (finish sha256 id r out name (s.receipts id) (s.outputs name) s).1) s)
  unfolding finish write_atomic
  finish-Changes n id r out name s named digest good = elim (Option-cases (s.receipts id)) [
    | inr (stored, e) ↦
        elim (Bool-cases (is_accepted sha256 stored s && value_eq (dict stored) (dict r))) [
          | inl b ↦ rw (finish, e, b) (no_writes sha256 n s)
          | inr b ↦ rw (finish, e, b) (no_writes sha256 n s)
        ]
    | inl e ↦ elim (Option-cases (s.outputs name)) [
      | inr (old, o) ↦ elim (Bool-cases (same_output old out)) [
        | inr b ↦ rw (finish, e, o, b) (no_writes sha256 n s)
        | inl b ↦
            rw (finish, e, o, b)
              (cut_one sha256 n s (write_receipt id r)
                (received id r e named (good s old refl refl o (same_output-digest old out b))))
      ]
      | inl o ↦
          let t = write_atomic (write_text name out) s in
          rw (finish, e, o)
            (cut_two sha256 n s (write_text name out) (write_receipt id r)
              (produced name out o digest)
              (received id r e named (good t out refl refl (put_same name out s.outputs) refl)))
    ]
  ]

  pub can_produce-CanProduce :
      (payload envelope : String) (ref : Fields) (source : Value) (job : Fields)
      → can_produce sha256 payload envelope ref source job ≡ true
      → CanProduce sha256 ref payload envelope job source
  unfolding can_produce
  can_produce-CanProduce payload envelope ref source job h = record {
    payload_ok = ground arith;
    envelope_ok = ground arith;
    ref_ok = ground arith;
    digest = ground (arith, eq_iff (envelope_digest sha256 job) (some envelope));
  }

  produce_receipt-Changes :
      (n : ℕ) (id peer : String) (token : ℕ) (text : String) (ref : Fields)
      (payload envelope : String) (s : PeerSpool)
      → HasDigests sha256
      → Changes sha256 s (
          write_all (take n (produce_receipt sha256 id peer token text ref payload envelope s).1) s)
  unfolding produce_receipt new_output
  produce_receipt-Changes n id peer token text ref payload envelope s digests =
      elim (Option-cases (held_job id peer token s)) [
        | inl h ↦ rw (produce_receipt, h) (no_writes sha256 n s)
        | inr (job, h) ↦ elim (Option-cases (get "source_dm_id" job)) [
          | inl g ↦ rw (produce_receipt, h, g) (no_writes sha256 n s)
          | inr (source, g) ↦
              elim (Bool-cases (can_produce sha256 payload envelope ref source job)) [
                | inr b ↦ rw (produce_receipt, h, g, b) (no_writes sha256 n s)
                | inl b ↦
                    let (c, holds) = held_job-Holds id peer token job s h in
                    let f =
                      new_receipt-fields sha256 id peer token text ref payload envelope source in
                    rw (produce_receipt, h, g, b)
                      (finish-Changes n id _ (new_output sha256 id peer token text source) _ s
                        (ap canonical_id f.job_id ∙ holds.named)
                        (new_output-digest id peer token text source)
                        (λ t o run cl at d.
                          produced-accepted digests id peer token text ref payload envelope source
                            job c o s t holds g
                            (can_produce-CanProduce payload envelope ref source job b) run cl at d))
              ]
        ]
      ]

  -- A call, finished or cut, makes guarded writes only.
  pub cut-Changes :
      (n : ℕ) (r : Request) (s : PeerSpool)
      → HasDigests sha256
      → IsSpool sha256 s
      → Changes sha256 s (cut sha256 n r s)
  unfolding cut writes
  cut-Changes n (Request.enqueue job) s digests ok = enqueue-Changes sha256 n job s
  cut-Changes n (Request.claim id peer now) s digests ok = claim-Changes sha256 n id peer now s ok
  cut-Changes n (Request.reclaim id peer now) s digests ok = reclaim-Changes sha256 n id peer now s
  cut-Changes n (Request.write_output id peer token text) s digests ok =
      write_output-Changes n id peer token text s
  cut-Changes n (Request.produce_receipt id peer token text ref payload envelope) s digests ok =
      produce_receipt-Changes n id peer token text ref payload envelope s digests
  cut-Changes n (Request.accept_receipt r) s digests ok = accept_receipt-Changes n r s
