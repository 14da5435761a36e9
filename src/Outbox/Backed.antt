-- ===== src/Outbox/Backed.antt =====
-- What the transport of src/swarph_cli/peer_service_reply.py is given, along all drains.
use swarph_cli.Prelude.{
  ℕ, zero, suc, ◌≡◌, arith, refl, sym, ap, ◌∙◌, inl, inr, Bool-cases, Option-cases, string_eq,
  String, some, List, take, All, All-map,
}
use swarph_cli.Prelude.Python.{Value, Fields, str, dict, get_or_null, nonempty_str, value_eq}
use swarph_cli.Prelude.Values.{value_eq-str}
use swarph_cli.Delivery.Entries.{done}
use swarph_cli.Spool.Files.{Output, PeerSpool, empty_spool, output_name}
use swarph_cli.Spool.Envelopes.{canonical_id}
use swarph_cli.Spool.Results.{output_digest, accepted_receipt}
use swarph_cli.Spool.Requests.{Run}
use swarph_cli.Spool.Requests
use swarph_cli.Spool.Steps.{HasDigests}
use swarph_cli.Spool.Texts.{HasTexts, Run-HasTexts, accepted_receipt-output}
use swarph_cli.Spool.Lasting.{accepted_receipt-lasts}
use swarph_cli.Outbox.{
  Message, Outbox, Effect, source_peer, perform, perform_all, drain_cut, route, Runs, here, call,
  drained, posted, empty_outbox,
}
use swarph_cli.Outbox.Outcomes.{
  CanSend, message, Outcome, none_done, file_removed, reply_sent, drain_one-Outcome,
}

str_same : (a b : String) → str a ≡ str b → a ≡ b
str_same a b h = cc

nonempty_str-some : (v : Value) (t : String) → nonempty_str v ≡ some t → v ≡ str t
nonempty_str-some v t h = ground arith

source_peer-some :
    (v : Value) (peer : String)
    → source_peer v ≡ some peer
    → (ref : Fields) × (v ≡ dict ref) × (get_or_null "source_peer" ref ≡ str peer)
unfolding source_peer
source_peer-some (dict ref) peer h = (ref, refl, nonempty_str-some _ peer h)
source_peer-some _ peer h = cc

module _ (sha256 : String → String) where
  -- A message that answers an accepted receipt: it goes to the peer that the receipt names as the source,
  -- and its content has the same digest as the text of the output that the spool holds in the file of the
  -- receipt's job and fencing token.
  pub record IsBacked (s : PeerSpool) (m : Message) : Type 0 where
    pub job_id : String
    pub receipt : Fields
    pub ref : Fields
    pub accepted : accepted_receipt sha256 job_id s ≡ done (some receipt)
    pub sourced : get_or_null "source_ref" receipt ≡ dict ref
    pub source : get_or_null "source_peer" ref ≡ str m.destination
    pub answered : get_or_null "output_digest" receipt ≡ str (output_digest sha256 m.content)
    pub job : String
    pub output : Output
    pub named : canonical_id (get_or_null "job_id" receipt) ≡ some job
    pub stands : s.outputs (output_name job (get_or_null "fencing_token" receipt)) ≡ some output
    pub same_digest : output_digest sha256 m.content ≡ output_digest sha256 output.text

  route-some :
      (r : Fields) (content peer : String)
      → route sha256 r content ≡ some peer
      → (ref : Fields) × (get_or_null "source_ref" r ≡ dict ref)
        × (get_or_null "source_peer" ref ≡ str peer)
        × (get_or_null "output_digest" r ≡ str (output_digest sha256 content))
  unfolding route
  route-some r content peer h = elim (Option-cases (source_peer (get_or_null "source_ref" r))) [
    | inl e ↦ absurd (let h' = rw (route, e) at h in cc)
    | inr (p, e) ↦
        elim (Bool-cases
          (value_eq (get_or_null "output_digest" r) (str (output_digest sha256 content)))) [
            | inr f ↦ absurd (let h' = rw (route, e, f) at h in cc)
            | inl f ↦
                let same : p ≡ peer = let h' = rw (route, e, f) at h in cc in
                let (ref, sourced, source) = source_peer-some _ peer (e ∙ ap some same) in
                (ref, sourced, source, value_eq-str _ _ f)
          ]
  ]

  message-IsBacked :
      (stem : String) (s : PeerSpool) (o : Outbox) (c : CanSend sha256 stem s o)
      → HasTexts sha256 s
      → IsBacked s (message sha256 c)
  message-IsBacked stem s o c texts =
      let (ref, sourced, source, answered) = route-some c.receipt c.reply.content c.peer c.routed in
      let (job, output, named, stands, digest) =
        accepted_receipt-output sha256 stem c.receipt s texts c.accepted in
      record {
        job_id = stem;
        receipt = c.receipt;
        ref = ref;
        accepted = c.accepted;
        sourced = sourced;
        source = source;
        answered = answered;
        job = job;
        output = output;
        named = named;
        stands = stands;
        same_digest =
            str_same (output_digest sha256 c.reply.content) (output_digest sha256 output.text)
              (sym answered ∙ digest);
      }

  perform-IsBacked :
      (n : ℕ) (stem : String) (s : PeerSpool) (o : Outbox) (es : List Effect)
      → HasTexts sha256 s
      → Outcome sha256 stem s o es
      → All (IsBacked s) o.calls
      → All (IsBacked s) (perform_all (take n es) o).calls
  unfolding perform_all perform
  perform-IsBacked zero stem s o es texts x h = h
  perform-IsBacked (suc n) stem s o es texts none_done h = h
  perform-IsBacked (suc zero) stem s o es texts file_removed h = h
  perform-IsBacked (suc (suc n)) stem s o es texts file_removed h = h
  perform-IsBacked (suc zero) stem s o es texts (reply_sent c) h =
      (message-IsBacked stem s o c texts, h)
  perform-IsBacked (suc (suc zero)) stem s o es texts (reply_sent c) h =
      (message-IsBacked stem s o c texts, h)
  perform-IsBacked (suc (suc (suc zero))) stem s o es texts (reply_sent c) h =
      (message-IsBacked stem s o c texts, h)
  perform-IsBacked (suc (suc (suc (suc n)))) stem s o es texts (reply_sent c) h =
      (message-IsBacked stem s o c texts, h)

  drain_cut-IsBacked :
      (n : ℕ) (stem : String) (s : PeerSpool) (o : Outbox)
      → HasTexts sha256 s
      → All (IsBacked s) o.calls
      → All (IsBacked s) (drain_cut sha256 n stem s o).calls
  unfolding drain_cut
  drain_cut-IsBacked n stem s o texts h =
      perform-IsBacked n stem s o _ texts (drain_one-Outcome sha256 stem s o) h

  Runs-Run :
      {s : PeerSpool} {o : Outbox} {t : PeerSpool} {p : Outbox}
      → Runs sha256 s o t p
      → Run sha256 s t
  Runs-Run here = Run.here
  Runs-Run (call n r run) = Run.next n r (Runs-Run run)
  Runs-Run (drained n stem run) = Runs-Run run
  Runs-Run (posted stem e run) = Runs-Run run

  cut-IsBacked :
      (n : ℕ) (r : Requests.Request) (s : PeerSpool) (m : Message)
      → HasDigests sha256
      → Run sha256 empty_spool s
      → IsBacked s m
      → IsBacked (Requests.cut sha256 n r s) m
  cut-IsBacked n r s m digests run b =
      let accepted =
        accepted_receipt-lasts sha256 s (Requests.cut sha256 n r s) b.job_id b.receipt digests run
          (Run.next n r Run.here) b.accepted in
      let (job, output, named, stands, digest) =
        accepted_receipt-output sha256 b.job_id b.receipt (Requests.cut sha256 n r s)
          (Run-HasTexts sha256 digests (Run.next n r run)) accepted in
      record {
        job_id = b.job_id;
        receipt = b.receipt;
        accepted = accepted;
        ref = b.ref;
        sourced = b.sourced;
        source = b.source;
        answered = b.answered;
        job = job;
        output = output;
        named = named;
        stands = stands;
        same_digest =
            str_same (output_digest sha256 m.content) (output_digest sha256 output.text)
              (sym b.answered ∙ digest);
      }

  -- Every message that was ever given to the transport answers a receipt that the spool accepts now: it
  -- went to that receipt's source peer, and its content has the same digest as the text of the output that
  -- the spool holds for the receipt's job and fencing token. From an empty spool and outbox, after any
  -- calls, drains and new replies, finished or cut by a crash, where SHA-256 digests are 64 hex digits.
  pub calls-IsBacked :
      (s : PeerSpool) (o : Outbox)
      → HasDigests sha256
      → Runs sha256 empty_spool empty_outbox s o
      → All (IsBacked s) o.calls
  calls-IsBacked s o digests here = tt
  calls-IsBacked s o digests (call n r run) =
      All-map (IsBacked _) (IsBacked _) o.calls (λ m. cut-IsBacked n r _ m digests (Runs-Run run))
        (calls-IsBacked _ o digests run)
  calls-IsBacked s o digests (drained n stem run) =
      drain_cut-IsBacked n stem s _ (Run-HasTexts sha256 digests (Runs-Run run))
        (calls-IsBacked s _ digests run)
  calls-IsBacked s o digests (posted stem e run) = calls-IsBacked s _ digests run
