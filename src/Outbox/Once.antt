-- ===== src/Outbox/Once.antt =====
-- How often the transport of src/swarph_cli/peer_service_reply.py is given one reply.
use swarph_cli.Prelude.{
  ℕ, zero, suc, ◌+◌, ◌≤◌, ◌≡◌, String, Option, none, some, Bool, List, ◌∷◌, ◌==◌, inl, inr,
  Bool-cases, if◌then◌else◌, string_eq, eq_iff, take, count, arith, ap, ◌∙◌, sym,
}
use swarph_cli.Prelude.Python.{Fields}
use swarph_cli.Spool.Files.{PeerSpool, empty_spool}
use swarph_cli.Outbox.{
  Message, Outbox, Effect, perform, perform_all, digest, send, drain_one, drain_cut, Runs, here,
  call, drained, posted, empty_outbox,
}
use swarph_cli.Outbox.Outcomes.{Outcome, none_done, file_removed, reply_sent, drain_one-Outcome}

abbrev pub has_key : String → Message → Bool
has_key key m = m.idempotency_key == key

-- 1 where there is evidence.
abbrev present : Option Fields → ℕ
present none = 0
present (some e) = 1

-- 1 for effects of which the first is `send` and is the only one made.
abbrev after_send : ℕ → List Effect → ℕ
after_send (suc zero) (send m ∷ es) = 1
after_send _ _ = 0

module _ (sha256 : String → String) where
  -- The drains of a run that gave a message to the transport and were cut before the evidence.
  unfoldable pub interrupted :
      {s : PeerSpool} {o : Outbox} {t : PeerSpool} {p : Outbox} → Runs sha256 s o t p → ℕ
  interrupted here = 0
  interrupted (call n r run) = interrupted run
  interrupted (drained {t} {p} n stem run) =
      after_send n (drain_one sha256 stem t p).1 + interrupted run
  interrupted (posted stem e run) = interrupted run

  -- A message is counted, and its evidence is there where there was none.
  evidence_pays :
      (key k : String) (ev : Fields) (sent : String → Option Fields) (n : ℕ)
      → sent k ≡ none
      → (if k == key then 1 else 0) + n + present (sent key)
        ≤ 0 + (n + present (if k == key then some ev else sent key))
  evidence_pays key k ev sent n h = elim (Bool-cases (k == key)) [
    | inl e ↦
        let free : sent key ≡ none = ap sent (sym ((eq_iff k key).0 e)) ∙ h in
        rw (e, free) (omega arith)
    | inr e ↦ rw e (omega arith)
  ]

  perform-paid :
      (n : ℕ) (key stem : String) (s : PeerSpool) (o : Outbox) (es : List Effect)
      → Outcome sha256 stem s o es
      → count (has_key key) (perform_all (take n es) o).calls + present (o.sent key)
        ≤ after_send n es
          + (count (has_key key) o.calls + present ((perform_all (take n es) o).sent key))
  unfolding perform_all perform count
  perform-paid zero key stem s o es x = omega arith
  perform-paid (suc n) key stem s o es none_done = omega arith
  perform-paid (suc zero) key stem s o es file_removed = omega arith
  perform-paid (suc (suc n)) key stem s o es file_removed = omega arith
  perform-paid (suc zero) key stem s o es (reply_sent c) = ground arith
  perform-paid (suc (suc zero)) key stem s o es (reply_sent c) =
      evidence_pays key (digest sha256 c.file) _ o.sent _ c.unsent
  perform-paid (suc (suc (suc zero))) key stem s o es (reply_sent c) =
      evidence_pays key (digest sha256 c.file) _ o.sent _ c.unsent
  perform-paid (suc (suc (suc (suc n)))) key stem s o es (reply_sent c) =
      evidence_pays key (digest sha256 c.file) _ o.sent _ c.unsent

  drain_cut-paid :
      (n : ℕ) (key stem : String) (s : PeerSpool) (o : Outbox)
      → count (has_key key) (drain_cut sha256 n stem s o).calls + present (o.sent key)
        ≤ after_send n (drain_one sha256 stem s o).1
          + (count (has_key key) o.calls + present ((drain_cut sha256 n stem s o).sent key))
  unfolding drain_cut
  drain_cut-paid n key stem s o = perform-paid n key stem s o _ (drain_one-Outcome sha256 stem s o)

  calls-paid :
      (key : String) (s : PeerSpool) (o : Outbox) (run : Runs sha256 empty_spool empty_outbox s o)
      → count (has_key key) o.calls ≤ interrupted run + present (o.sent key)
  unfolding interrupted count
  calls-paid key s o here = omega arith
  calls-paid key s o (call n r run) = calls-paid key _ o run
  calls-paid key s o (drained n stem run) =
      omega (arith, drain_cut-paid n key stem s _, calls-paid key s _ run)
  calls-paid key s o (posted stem e run) = calls-paid key s _ run

  present_bounded : (o : Option Fields) → present o ≤ 1
  present_bounded none = omega arith
  present_bounded (some e) = omega arith

  -- The transport is given one idempotency key at most once, and once more for each drain that was cut
  -- after `send` and before the evidence was written: along any calls, drains and new replies, from an
  -- empty spool and outbox.
  pub sent_once :
      (key : String) (s : PeerSpool) (o : Outbox) (run : Runs sha256 empty_spool empty_outbox s o)
      → count (has_key key) o.calls ≤ suc (interrupted run)
  sent_once key s o run = omega (arith, calls-paid key s o run, present_bounded (o.sent key))
