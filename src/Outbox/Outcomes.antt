-- ===== src/Outbox/Outcomes.antt =====
-- What a drain of one reply may do (`_drain_one` of src/swarph_cli/peer_service_reply.py).
use swarph_cli.Prelude.{
  String, none, some, List, [], ◌∷◌, ◌==◌, ◌≡◌, inl, inr, Bool-cases, Option-cases, eq_iff,
  string_eq,
}
use swarph_cli.Prelude.Python.{Fields, dict, value_eq}
use swarph_cli.Delivery.Entries.{done, Result-cases}
use swarph_cli.Spool.Files.{PeerSpool}
use swarph_cli.Spool.Results.{accepted_receipt}
use swarph_cli.Outbox.{
  Message, Outbox, Effect, send, write_evidence, unlink, Reply, reply_of, evidence, digest, route,
  deliver, drain_one,
}

module _ (sha256 : String → String) where
  -- A reply that its receipt admits, with the peer that it goes to.
  pub record CanSend (stem : String) (s : PeerSpool) (o : Outbox) : Type 0 where
    pub file : Fields
    pub reply : Reply
    pub receipt : Fields
    pub peer : String
    pub pending : o.pending stem ≡ some file
    pub valid : reply_of file ≡ some reply
    pub unsent : o.sent (digest sha256 file) ≡ none
    pub accepted : accepted_receipt sha256 stem s ≡ done (some receipt)
    pub bound : digest sha256 receipt ≡ reply.receipt_digest
    pub routed : route sha256 receipt reply.content ≡ some peer

  abbrev pub message : {stem : String} {s : PeerSpool} {o : Outbox} → CanSend stem s o → Message
  message c = record {
    destination = c.peer;
    content = c.reply.content;
    idempotency_key = digest sha256 c.file;
  }

  pub data Outcome (stem : String) (s : PeerSpool) (o : Outbox) : List Effect → Type 0 where
    none_done : Outcome stem s o []
    file_removed : Outcome stem s o (unlink stem ∷ [])
    reply_sent :
        (c : CanSend stem s o)
        → Outcome stem s o (
            send (message c)
            ∷ write_evidence (digest sha256 c.file) (evidence c.reply (digest sha256 c.file))
            ∷ unlink stem
            ∷ [])

  deliver-Outcome :
      (stem : String) (s : PeerSpool) (o : Outbox) (e : Fields) (reply : Reply)
      → o.pending stem ≡ some e
      → reply_of e ≡ some reply
      → o.sent (digest sha256 e) ≡ none
      → Outcome stem s o (deliver sha256 stem reply (digest sha256 e) s).1
  unfolding deliver
  deliver-Outcome stem s o e reply p v u = elim (Result-cases (accepted_receipt sha256 stem s)) [
    | inl f ↦ rw (deliver, f) none_done
    | inr (none, f) ↦ rw (deliver, f) none_done
    | inr (some r, f) ↦ elim (Bool-cases (digest sha256 r == reply.receipt_digest)) [
      | inr b ↦ rw (deliver, f, b) none_done
      | inl b ↦ elim (Option-cases (route sha256 r reply.content)) [
        | inl t ↦ rw (deliver, f, b, t) none_done
        | inr (peer, t) ↦
            rw (deliver, f, b, t)
              (reply_sent (record {
                file = e;
                reply = reply;
                receipt = r;
                peer = peer;
                pending = p;
                valid = v;
                unsent = u;
                accepted = f;
                bound = (eq_iff (digest sha256 r) reply.receipt_digest).0 b;
                routed = t;
              }))
      ]
    ]
  ]

  pub drain_one-Outcome :
      (stem : String) (s : PeerSpool) (o : Outbox) → Outcome stem s o (drain_one sha256 stem s o).1
  unfolding drain_one
  drain_one-Outcome stem s o = elim (Option-cases (o.pending stem)) [
    | inl p ↦ rw (drain_one, p) none_done
    | inr (e, p) ↦ elim (Option-cases (reply_of e)) [
      | inl v ↦ rw (drain_one, p, v) none_done
      | inr (reply, v) ↦ elim (Bool-cases (reply.job_id == stem)) [
        | inr b ↦ rw (drain_one, p, v, b) none_done
        | inl b ↦ elim (Option-cases (o.sent (digest sha256 e))) [
          | inl u ↦ rw (drain_one, p, v, b, u) (deliver-Outcome stem s o e reply p v u)
          | inr (old, u) ↦
              elim (Bool-cases (value_eq (dict old) (dict (evidence reply (digest sha256 e))))) [
                | inl w ↦ rw (drain_one, p, v, b, u, w) file_removed
                | inr w ↦ rw (drain_one, p, v, b, u, w) none_done
              ]
        ]
      ]
    ]
  ]
