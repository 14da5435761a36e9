-- ===== src/Delivery/Obligations.antt =====
-- Owed messages and fencing tokens under the operations of src/swarph_cli/delivery_queue.py.
use swarph_cli.Prelude.{
  ℕ, ◌<◌, ◌≤◌, Option, none, some, Bool, true, false, List, [], ◌∷◌, ◌++◌, ◌≡◌, refl, sym, ap,
  subst, ◌∙◌, arith, ◌==◌, any, find-In, find-any, any-append, Bool-cases, ◌⊎◌, inl, inr, nat_eq,
  string_eq, eq_iff, remove_first, any-update_first, find-update_first, find-remove_first,
  any-remove_first_other, find-append,
}
use swarph_cli.Prelude.Python.{Fields}
use swarph_cli.Delivery.Entries.{Job, Entry, DeliveryQueue, entry_of}
use swarph_cli.Delivery.Operations.{
  set_pending, change, new_entry, evaluated, expire, active, refuse_capacity, next_token, new_job,
  assign, acknowledge,
}
use swarph_cli.Delivery.Receipts.{active_job}
use swarph_cli.Delivery.Invariant.{UniqueIds, IsLedger}
use swarph_cli.Delivery.Fits.{IsServiceReceipt, IsSpoolReceipt}
use swarph_cli.Delivery.Steps.{
  Operation, settle, reconcile, serve, Step, stay, added, decided, lapsed, granted, over, settled,
  ticked, serve-Step,
}

-- The message is in the ledger.
abbrev pub is_owed : ℕ → DeliveryQueue → Bool
is_owed id q = any (λ (e : Entry). e.id == id) q.live.pending

-- The message left with a receipt, which stands last, and had a claim in service that the receipt is for.
abbrev pub Settled : Operation → ℕ → DeliveryQueue → DeliveryQueue → Type 0
Settled op id q q' =
    (r : Fields) × (e : Entry) × (j : Job) × (entry_of id q.live.pending ≡ some e)
    × (active_job e ≡ some j)
    × (((op ≡ settle r) × IsServiceReceipt r id j) ⊎ ((op ≡ reconcile r) × IsSpoolReceipt r id j))
    × (q'.live.receipts ≡ q.live.receipts ++ r ∷ [])

other_ids : (a b : ℕ) (e : Entry) → (a == b) ≡ false → (e.id == a) ≡ true → (e.id == b) ≡ false
other_ids a b e ne h = ground (arith, eq_iff e.id a)

change-is_owed :
    (id dm_id : ℕ) (f : Entry → Entry) (q : DeliveryQueue)
    → ((e : Entry) → (f e).id ≡ e.id)
    → is_owed id (change dm_id f q) ≡ is_owed id q
unfolding change
change-is_owed id dm_id f q same =
    any-update_first (λ e. e.id == dm_id) f (λ e. e.id == id) (λ e. rw (same e) refl) q.live.pending

Step-is_owed :
    (op : Operation) (q q' : DeliveryQueue) (id : ℕ)
    → Step op q q'
    → is_owed id q ≡ true
    → (is_owed id q' ≡ true) ⊎ Settled op id q q'
unfolding evaluated expire assign refuse_capacity new_entry new_job acknowledge set_pending
Step-is_owed op q _ id stay h = inl h
Step-is_owed op q _ id (added now dm n) h = inl (
    any-append (λ (e : Entry). e.id == id) q.live.pending (new_entry now dm ∷ [])
    ∙ ground (arith, h))
Step-is_owed op q _ id (decided dm_id state reason) h =
    inl (change-is_owed id dm_id (evaluated state reason) q (λ e. refl) ∙ h)
Step-is_owed op q _ id (lapsed dm_id reason e n c) h =
    inl (change-is_owed id dm_id (expire reason) q (λ e. refl) ∙ h)
Step-is_owed op q _ id (granted dm_id source destination max_active e n c m o) h =
    inl (change-is_owed id e.id (assign (new_job source destination e)) q (λ e. refl) ∙ h)
Step-is_owed op q _ id (over dm_id max_active e n c m) h =
    inl (
      change-is_owed id e.id (refuse_capacity (active q.live.pending) max_active) q (λ e. refl) ∙ h)
Step-is_owed op q _ id (settled dm_id r e j n a o) h = elim (Bool-cases (dm_id == id)) [
  | inl s ↦ inr (
    r,
    e,
    j,
    subst (λ i. entry_of i q.live.pending ≡ some e) ((eq_iff dm_id id).0 s) n,
    a,
    subst
        (λ i.
          ((op ≡ settle r) × IsServiceReceipt r i j) ⊎ ((op ≡ reconcile r) × IsSpoolReceipt r i j))
        ((eq_iff dm_id id).0 s) o,
    refl,
  )
  | inr s ↦ inl (
      any-remove_first_other (λ e. e.id == dm_id) (λ e. e.id == id)
        (λ e t. other_ids dm_id id e s t) q.live.pending
      ∙ h)
]
Step-is_owed op q _ id (ticked n) h = inl h

-- No operation loses a message: one that was owed is still owed afterwards, or a receipt of it has been
-- recorded last, which names this message, the job, the destination and the fencing token of the claim
-- that it had in service and carries the digest of an output; a receipt of the spool has the token in its
-- `source_ref`. Eligibility, expiry and lack of capacity never remove it.
pub serve-is_owed :
    (op : Operation) (q : DeliveryQueue) (id : ℕ)
    → is_owed id q ≡ true
    → (is_owed id (serve op q) ≡ true) ⊎ Settled op id q (serve op q)
serve-is_owed op q id h = Step-is_owed op q (serve op q) id (serve-Step op q) h

-- The fencing token of the message's last claim; 0 before the first one.
abbrev pub token : Option Job → ℕ
token none = 0
token (some j) = j.fencing_token

pub token-next : (o : Option Job) → token o < next_token o
unfolding next_token
token-next none = omega arith
token-next (some j) = omega arith

-- A change of an entry that never takes its token back.
change-token :
    (id dm_id : ℕ) (f : Entry → Entry) (q : DeliveryQueue) (a b : Entry)
    → ((e : Entry) → (f e).id ≡ e.id)
    → (entry_of dm_id q.live.pending ≡ some a → token a.job ≤ token (f a).job)
    → entry_of id q.live.pending ≡ some a
    → entry_of id (change dm_id f q).live.pending ≡ some b
    → token a.job ≤ token b.job
unfolding change entry_of
change-token id dm_id f q a b same grows before after =
    let (k, found, cases) =
      find-update_first (λ e. e.id == dm_id) f (λ e. e.id == id) (λ e. rw (same e) refl)
        q.live.pending b after in
    let one : k ≡ a = cc in
    elim cases [
      | inl e ↦ subst (λ (x : Entry). token a.job ≤ token x.job) (sym (e ∙ one)) (omega arith)
      | inr (e, p) ↦
          let own = (eq_iff a.id id).0 ((find-In (λ e. e.id == id) q.live.pending a before).1) in
          let named = (eq_iff k.id dm_id).0 p in
          let here : id ≡ dm_id = sym own ∙ ap (λ (x : Entry). x.id) (sym one) ∙ named in
          subst (λ (x : Entry). token a.job ≤ token x.job) (sym (e ∙ ap f one))
            (grows (subst (λ i. entry_of i q.live.pending ≡ some a) here before))
    ]

pub same_id :
    (id : ℕ) (q : DeliveryQueue) (e : Entry) → entry_of id q.live.pending ≡ some e → e.id ≡ id
unfolding entry_of
same_id id q e h = (eq_iff e.id id).0 ((find-In (λ k. k.id == id) q.live.pending e h).1)

-- Once an entry is removed, no other has its id.
pub removed_gone :
    (id : ℕ) (es : List Entry)
    → UniqueIds es
    → any (λ (e : Entry). e.id == id) (remove_first (λ e. e.id == id) es) ≡ false
unfolding any remove_first
removed_gone id [] u = refl
removed_gone id (e ∷ es) u = elim (Bool-cases (e.id == id)) [
  | inl h ↦ rw h (subst (λ i. any (λ (k : Entry). k.id == i) es ≡ false) ((eq_iff e.id id).0 h) u.0)
  | inr h ↦ rw (h, h) (removed_gone id es u.1)
]

Step-token :
    (op : Operation) (q q' : DeliveryQueue) (id : ℕ) (a b : Entry)
    → UniqueIds q.live.pending
    → Step op q q'
    → entry_of id q.live.pending ≡ some a
    → entry_of id q'.live.pending ≡ some b
    → token a.job ≤ token b.job
unfolding evaluated expire assign refuse_capacity new_entry new_job acknowledge set_pending entry_of
Step-token op q _ id a b u stay ha hb = let one : a ≡ b = cc in rw one (omega arith)
Step-token op q _ id a b u (added now dm n) ha hb =
    let kept =
      find-append (λ (e : Entry). e.id == id) q.live.pending (new_entry now dm ∷ []) a ha in
    let one : a ≡ b = cc in rw one (omega arith)
Step-token op q _ id a b u (decided dm_id state reason) ha hb =
    change-token id dm_id (evaluated state reason) q a b (λ e. refl) (λ n. omega arith) ha hb
Step-token op q _ id a b u (lapsed dm_id reason e n c) ha hb =
    change-token id dm_id (expire reason) q a b (λ e. refl) (λ n. omega arith) ha hb
Step-token op q _ id a b u (granted dm_id source destination max_active e n c m o) ha hb =
    change-token id e.id (assign (new_job source destination e)) q a b (λ e. refl)
      (λ own.
        let one : a ≡ e =
          let e_own =
            subst (λ i. entry_of i q.live.pending ≡ some e) (sym (same_id dm_id q e n)) n in
          cc in
        let more = token-next e.job in
        subst (λ (x : Entry). token x.job ≤ next_token e.job) (sym one) (omega arith))
      ha hb
Step-token op q _ id a b u (over dm_id max_active e n c m) ha hb =
    change-token id e.id (refuse_capacity (active q.live.pending) max_active) q a b (λ e. refl)
      (λ own. omega arith) ha hb
Step-token op q _ id a b u (settled dm_id r e j n c o) ha hb = elim (Bool-cases (dm_id == id)) [
  | inl s ↦
      let gone =
        subst
          (λ i.
            any (λ (e : Entry). e.id == id) (remove_first (λ e. e.id == i) q.live.pending) ≡ false)
          (sym ((eq_iff dm_id id).0 s)) (removed_gone id q.live.pending u) in
      let none_left =
        find-any (λ (e : Entry). e.id == id) (remove_first (λ e. e.id == dm_id) q.live.pending)
          gone in
      absurd cc
  | inr s ↦
      let kept =
        find-remove_first (λ e. e.id == dm_id) (λ e. e.id == id) (λ e t. other_ids dm_id id e s t)
          q.live.pending in
      let one : a ≡ b = cc in rw one (omega arith)
]
Step-token op q _ id a b u (ticked n) ha hb = let one : a ≡ b = cc in rw one (omega arith)

-- Fencing tokens never go back: whatever the operation, a message that stays in the ledger has the
-- token it had or a greater one.
pub serve-token :
    (op : Operation) (q : DeliveryQueue) (id : ℕ) (a b : Entry)
    → IsLedger q
    → entry_of id q.live.pending ≡ some a
    → entry_of id (serve op q).live.pending ≡ some b
    → token a.job ≤ token b.job
serve-token op q id a b l before after =
    Step-token op q (serve op q) id a b l.unique (serve-Step op q) before after
