-- ===== src/Outbox.antt =====
-- `ReceiptGatedReplyOutbox` of src/swarph_cli/peer_service_reply.py: the replies of a peer's services, the
-- evidence of those that went out, and the calls of the transport. Drains follow each other, so that a
-- reply that was listed is there when it is drained.
pub mod Outcomes
pub mod Backed
pub mod Once
mod Tests
use swarph_cli.Prelude.{
  ℕ, String, Option, none, some, Bool, true, false, not, ◌&&◌, List, [], ◌∷◌, ◌==◌, if◌then◌else◌,
  string_eq, take,
}
use swarph_cli.Prelude.Text.{strip}
use swarph_cli.Prelude.Python.{
  Value, Fields, int, str, dict, end, field, get_or_null, value_eq, nonempty_str, keys_are,
}
use swarph_cli.Prelude.Json.{dumps}
use swarph_cli.Delivery.Entries.{Result, done, refused}
use swarph_cli.Delivery.Digest.{is_digest}
use swarph_cli.Spool.Files.{Directory, PeerSpool, put, take_out}
use swarph_cli.Spool.Results.{output_digest, accepted_receipt}
use swarph_cli.Spool.Requests
use swarph_cli.Spool.Requests.{Request}

-- A call of `send`.
pub record Message : Type 0 where
  pub destination : String
  pub content : String
  pub idempotency_key : String

-- The files by their stems, and the calls of the transport, the latest first.
pub record Outbox : Type 0 where
  pub pending : Directory Fields
  pub sent : Directory Fields
  pub calls : List Message

abbrev pub empty_outbox : Outbox
empty_outbox = record { pending = λ _. none; sent = λ _. none; calls = [] }

pub data Effect : Type 0 where
  send : Message → Effect
  write_evidence : String → Fields → Effect
  unlink : String → Effect

unfoldable pub perform : Effect → Outbox → Outbox
perform (send m) o = record o { calls = m ∷ o.calls }
perform (write_evidence key e) o = record o { sent = put key e o.sent }
perform (unlink stem) o = record o { pending = take_out stem o.pending }

unfoldable pub perform_all : List Effect → Outbox → Outbox
perform_all [] o = o
perform_all (e ∷ es) o = perform_all es (perform e o)

abbrev pub envelope_fields : List String
envelope_fields = "schema_version" ∷ "job_id" ∷ "receipt_digest" ∷ "content" ∷ []

-- A reply envelope that validates.
pub record Reply : Type 0 where
  pub job_id : String
  pub receipt_digest : String
  pub content : String

abbrev text_at : String → Fields → Option String
text_at key e = nonempty_str (get_or_null key e)

-- `_validate_envelope`
unfoldable pub reply_of : Fields → Option Reply
reply_of e =
    if keys_are envelope_fields e
      && value_eq (get_or_null "schema_version" e) (int 1)
      && is_digest (get_or_null "receipt_digest" e)
    then (elim (text_at "job_id" e) [
      | none ↦ none
      | some id ↦ elim (text_at "receipt_digest" e) [
        | none ↦ none
        | some digest ↦ elim (text_at "content" e) [
          | none ↦ none
          | some text ↦
              if strip text == ""
              then none
              else some (record { job_id = id; receipt_digest = digest; content = text })
        ]
      ]
    ])
    else none

-- `_evidence`
unfoldable pub evidence : Reply → String → Fields
evidence reply key = field "schema_version" (int 1) (
    field "job_id" (str reply.job_id)
      (field "receipt_digest" (str reply.receipt_digest) (field "delivery_key" (str key) end)))

-- The peer of a receipt's `source_ref`.
unfoldable pub source_peer : Value → Option String
source_peer (dict ref) = nonempty_str (get_or_null "source_peer" ref)
source_peer _ = none

pub data ReplyState : Type 0 where
  was_sent : ReplyState
  already_sent : ReplyState

module _ (sha256 : String → String) where
  -- `_digest`
  unfoldable pub digest : Fields → String
  digest value = sha256 (dumps (dict value))

  -- The peer that a receipt routes the content to; `none` raises.
  unfoldable pub route : Fields → String → Option String
  route r content = elim (source_peer (get_or_null "source_ref" r)) [
    | none ↦ none
    | some peer ↦
        if value_eq (get_or_null "output_digest" r) (str (output_digest sha256 content))
        then some peer
        else none
  ]

  -- A reply without evidence.
  unfoldable pub deliver : String → Reply → String → PeerSpool → Result ReplyState × List Effect
  deliver stem reply key s = elim (accepted_receipt sha256 stem s) [
    | done (some r) ↦
        let target = route r reply.content in
        if digest r == reply.receipt_digest
        then (elim target [
          | none ↦ (refused, [])
          | some peer ↦ (
            done was_sent,
            send (record { destination = peer; content = reply.content; idempotency_key = key })
                ∷ write_evidence key (evidence reply key)
                ∷ unlink stem
                ∷ [],
          )
        ])
        else (refused, [])
    | _ ↦ (refused, [])
  ]

  -- `_drain_one`
  unfoldable pub drain_one : String → PeerSpool → Outbox → Result ReplyState × List Effect
  drain_one stem s o = elim (o.pending stem) [
    | none ↦ (refused, [])
    | some e ↦ elim (reply_of e) [
      | none ↦ (refused, [])
      | some reply ↦
          if reply.job_id == stem
          then (elim (o.sent (digest e)) [
            | none ↦ deliver stem reply (digest e) s
            | some old ↦
                if value_eq (dict old) (dict (evidence reply (digest e)))
                then (done already_sent, unlink stem ∷ [])
                else (refused, [])
          ])
          else (refused, [])
    ]
  ]

  -- `drain`, over the stems that the glob gave in order: the state of each, `refused` for "retained".
  unfoldable pub drain : List String → PeerSpool → Outbox → List (Result ReplyState) × Outbox
  drain [] s o = ([], o)
  drain (stem ∷ stems) s o =
      let (state, effects) = drain_one stem s o in
      let (states, o') = drain stems s (perform_all effects o) in (state ∷ states, o')

  -- The outbox after the first `n` effects of a drain: a crash, or a `send` that raises, cuts it.
  unfoldable pub drain_cut : ℕ → String → PeerSpool → Outbox → Outbox
  drain_cut n stem s o = perform_all (take n (drain_one stem s o).1) o

  -- The spool and the outbox under calls, drains and new replies, in any order.
  pub data Runs (s : PeerSpool) (o : Outbox) : PeerSpool → Outbox → Type 0 where
    here : Runs s o s o
    call :
        {t : PeerSpool} {p : Outbox} (n : ℕ) (r : Request)
        → Runs s o t p
        → Runs s o (Requests.cut sha256 n r t) p
    drained :
        {t : PeerSpool} {p : Outbox} (n : ℕ) (stem : String)
        → Runs s o t p
        → Runs s o t (drain_cut n stem t p)
    posted :
        {t : PeerSpool} {p : Outbox} (stem : String) (e : Fields)
        → Runs s o t p
        → Runs s o t (record p { pending = put stem e p.pending })
