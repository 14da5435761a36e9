-- ===== src/Spool/Retry.antt =====
-- `produce_receipt` of src/swarph_cli/peer_executor.py, called again after a crash.
use swarph_cli.Prelude.{
  ℕ, String, some, true, take, ◌≡◌, refl, sym, ap, subst, ◌∙◌, Bool-cases, Option-cases, eq_refl,
  inl, inr, string_eq, nat_eq,
}
use swarph_cli.Prelude.Python.{Value, Fields, int, str, dict, get, is_strict_int}
use swarph_cli.Prelude.Dicts.{IsDict, IsValue, value_eq_refl}
use swarph_cli.Prelude.Values.{get_or_null-some, value_eq_strict_refl}
use swarph_cli.Delivery.Entries.{done}
use swarph_cli.Spool.Files.{PeerSpool, output_name, write_all}
use swarph_cli.Spool.Results.{
  held_job, new_output, new_receipt, same_output, can_produce, produce_receipt,
}
use swarph_cli.Spool.Requests.{Request, writes, cut}
use swarph_cli.Spool.Rest.{finish_at, finish-again, finish-IsResult, results-keep}
use swarph_cli.Spool.Evidence.{held_job-Holds}
use swarph_cli.Spool.Acceptance.{envelope_digest-is_job, is_job-source}
use swarph_cli.Spool.Steps.{HasDigests, can_produce-CanProduce, produced-accepted}

module _ (sha256 : String → String) where
  new_receipt-IsDict :
      (id peer : String) (token : ℕ) (text : String) (ref : Fields) (payload envelope : String)
      (source : Value)
      → IsDict ref
      → IsValue source
      → IsDict (new_receipt sha256 id peer token text ref payload envelope source)
  unfolding new_receipt IsDict IsValue get
  new_receipt-IsDict id peer token text ref payload envelope source d v = (
    refl,
    tt,
    (refl, v, (refl, tt, (refl, tt, (refl, tt, (refl, tt, (refl, tt, (refl, d, tt))))))),
  )

  new_output-same :
      (id peer : String) (token : ℕ) (text : String) (source : Value)
      → is_strict_int source ≡ true
      → let out = new_output sha256 id peer token text source in same_output out out ≡ true
  unfolding same_output new_output
  new_output-same id peer token text source h =
      rw
        (
          eq_refl id,
          value_eq_strict_refl source h,
          eq_refl peer,
          eq_refl token,
          eq_refl text,
          eq_refl (sha256 text),
        )
        refl

  strict-IsValue : (v : Value) → is_strict_int v ≡ true → IsValue v
  unfolding IsValue
  strict-IsValue (int n) h = tt
  strict-IsValue (Value.neg n) h = tt
  strict-IsValue Value.null h = tt
  strict-IsValue (Value.bool b) h = tt
  strict-IsValue (str s) h = tt
  strict-IsValue (dict d) h = absurd (cc)

  -- Where the job is held, the call is its rest.
  produce-finish :
      (id peer : String) (token : ℕ) (text : String) (ref : Fields) (payload envelope : String)
      (source : Value) (job : Fields) (s : PeerSpool)
      → held_job id peer token s ≡ some job
      → get "source_dm_id" job ≡ some source
      → can_produce sha256 payload envelope ref source job ≡ true
      → produce_receipt sha256 id peer token text ref payload envelope s
        ≡ finish_at sha256 id
            (new_receipt sha256 id peer token text ref payload envelope source)
            (new_output sha256 id peer token text source)
            (output_name id (int token))
            s
  unfolding produce_receipt
  produce-finish id peer token text ref payload envelope source job s h g b =
      rw (produce_receipt, h, g, b) refl

  held_job-same :
      (id peer : String) (token : ℕ) (s t : PeerSpool)
      → t.running ≡ s.running
      → t.claims ≡ s.claims
      → held_job id peer token t ≡ held_job id peer token s
  unfolding held_job
  held_job-same id peer token s t r c = rw (r, c) refl

  held_again :
      (id peer : String) (token : ℕ) (text : String) (ref : Fields) (payload envelope : String)
      (s : PeerSpool) (r : Fields) (n : ℕ) (job : Fields) (source : Value)
      → HasDigests sha256
      → IsDict ref
      → (produce_receipt sha256 id peer token text ref payload envelope s).0 ≡ done r
      → held_job id peer token s ≡ some job
      → get "source_dm_id" job ≡ some source
      → can_produce sha256 payload envelope ref source job ≡ true
      → let call = produce_receipt sha256 id peer token text ref payload envelope in
        let t = write_all (take n (call s).1) s in
        ((call t).0 ≡ done r) × (write_all (call t).1 t ≡ write_all (call s).1 s)
  unfolding IsValue IsDict new_output
  held_again id peer token text ref payload envelope s r n job source digests d h e g b =
      let receipt = new_receipt sha256 id peer token text ref payload envelope source in
      let out = new_output sha256 id peer token text source in
      let name = output_name id (int token) in
      let call = produce_receipt sha256 id peer token text ref payload envelope in
      let (c, holds) = held_job-Holds id peer token job s e in
      let can = can_produce-CanProduce sha256 payload envelope ref source job b in
      let strict : is_strict_int source ≡ true =
        subst (λ v. is_strict_int v ≡ true) (get_or_null-some "source_dm_id" job source g)
          (is_job-source job (envelope_digest-is_job sha256 job envelope can.digest)) in
      let at_s = produce-finish id peer token text ref payload envelope source job s e g b in
      let t = write_all (take n (finish_at sha256 id receipt out name s).1) s in
      let (run, cl) = results-keep sha256 n _ s (finish-IsResult sha256 id receipt out name s) in
      let at_t =
        produce-finish id peer token text ref payload envelope source job t
          (held_job-same id peer token s t run cl ∙ e) g b in
      let again =
        finish-again sha256 id receipt out name
          (value_eq_refl (dict receipt) (
            new_receipt-IsDict id peer token text ref payload envelope source d
              (strict-IsValue source strict)))
          (new_output-same id peer token text source strict) s
          (λ u o ur uc at same.
            produced-accepted sha256 digests id peer token text ref payload envelope source job c o
              s u holds g can ur uc at same)
          r n (ap (λ x. x.0) (sym at_s) ∙ h) in
      subst
        (λ c.
          let u = write_all (take n c.1) s in
          ((call u).0 ≡ done r) × (write_all (call u).1 u ≡ write_all c.1 s))
        (sym at_s) (ap (λ x. x.0) at_t ∙ again.0, ap (λ x. write_all x.1 t) at_t ∙ again.1)

  -- A call of `produce_receipt` that a crash cut after any of its writes answers, called again with the
  -- same arguments, with the receipt that the whole call would have answered with, and leaves the spool
  -- that it would have left; where SHA-256 digests are 64 hex digits and the reference's keys are unique.
  pub produce_receipt-again :
      (id peer : String) (token : ℕ) (text : String) (ref : Fields) (payload envelope : String)
      (s : PeerSpool) (r : Fields) (n : ℕ)
      → HasDigests sha256
      → IsDict ref
      → (produce_receipt sha256 id peer token text ref payload envelope s).0 ≡ done r
      → let call = Request.produce_receipt id peer token text ref payload envelope in
        let t = cut sha256 n call s in
        ((produce_receipt sha256 id peer token text ref payload envelope t).0 ≡ done r)
        × (write_all (writes sha256 call t) t ≡ write_all (writes sha256 call s) s)
  unfolding cut writes produce_receipt
  produce_receipt-again id peer token text ref payload envelope s r n digests d h =
      elim (Option-cases (held_job id peer token s)) [
        | inl e ↦ absurd (let h' = rw (produce_receipt, e) at h in cc)
        | inr (job, e) ↦ elim (Option-cases (get "source_dm_id" job)) [
          | inl g ↦ absurd (let h' = rw (produce_receipt, e, g) at h in cc)
          | inr (source, g) ↦
              elim (Bool-cases (can_produce sha256 payload envelope ref source job)) [
                | inr b ↦ absurd (let h' = rw (produce_receipt, e, g, b) at h in cc)
                | inl b ↦
                    held_again id peer token text ref payload envelope s r n job source digests d h
                      e g b
              ]
        ]
      ]
