-- ===== src/Delivery/Steps.antt =====
-- What the operations of src/swarph_cli/delivery_queue.py do to the ledger, as steps.
use swarph_cli.Prelude.{
  ℕ, ◌+◌, ◌<◌, ◌≤◌, String, some, true, false, not, ◌&&◌, [], ◌∷◌, ◌++◌, ◌≡◌, refl, arith, leb,
  ◌==◌, any, Bool-cases, Option-cases, ◌⊎◌, inl, inr, nat_eq, string_eq,
}
use swarph_cli.Prelude.Python.{Fields, nonempty_str, get_or_null}
use swarph_cli.Delivery.Entries.{
  Eligibility, is_claimed, is_eligible, is_claimable, Job, Entry, DeliveryQueue, entry_of,
  eligibility_of, job_dict,
}
use swarph_cli.Delivery.Operations.{
  persist, set_pending, change, Dm, new_entry, enqueue, evaluated, record_eligibility, expire,
  record_expired, active, refuse_capacity, new_job, assign, claim_entry, claim_for_service,
  acknowledge, bump_deferred, reset_deferred,
}
use swarph_cli.Delivery.Receipts.{
  is_receipt, id_of, active_job, agree, claim_fields, remove_on_receipt, spool_ref, fits_claim,
  reconcile_spool_receipt,
}
use swarph_cli.Delivery.Fits.{
  IsServiceReceipt, IsSpoolReceipt, agree-IsServiceReceipt, fits_claim-IsSpoolReceipt,
}

-- A call of an operation that may change the ledger.
pub data Operation : Type 0 where
  drain : ℕ → Dm → Operation
  evaluate : ℕ → String → String → Operation
  lapse : ℕ → String → Operation
  claim : ℕ → String → ℕ → Operation
  settle : Fields → Operation
  reconcile : Fields → Operation
  bump : Operation
  reset : Operation

-- The ledger that the call leaves.
unfoldable pub serve : Operation → DeliveryQueue → DeliveryQueue
serve (drain now dm) q = enqueue now dm q
serve (evaluate dm_id state reason) q = (record_eligibility dm_id state reason q).1
serve (lapse dm_id reason) q = (record_expired dm_id reason q).1
serve (claim dm_id destination max_active) q = (claim_for_service dm_id destination max_active q).1
serve (settle receipt) q = (remove_on_receipt receipt q).1
serve (reconcile receipt) q = (reconcile_spool_receipt receipt q).1
serve bump q = bump_deferred q
serve reset q = reset_deferred q

-- The steps, each with the guard under which it is taken.
pub data Step (op : Operation) (q : DeliveryQueue) : DeliveryQueue → Type 0 where
  stay : Step op q q
  added :
      (now : ℕ) (dm : Dm)
      → any (λ (e : Entry). e.id == dm.id) q.live.pending ≡ false
      → Step op q (set_pending (λ pending. pending ++ new_entry now dm ∷ []) q)
  decided :
      (dm_id : ℕ) (state : Eligibility) (reason : String)
      → Step op q (change dm_id (evaluated state reason) q)
  lapsed :
      (dm_id : ℕ) (reason : String) (e : Entry)
      → entry_of dm_id q.live.pending ≡ some e
      → is_claimed e.service_state ≡ false
      → Step op q (change dm_id (expire reason) q)
  granted :
      (dm_id : ℕ) (source destination : String) (max_active : ℕ) (e : Entry)
      → entry_of dm_id q.live.pending ≡ some e
      → is_claimed e.service_state ≡ false
      → active q.live.pending < max_active
      → op ≡ claim dm_id destination max_active
      → Step op q (change e.id (assign (new_job source destination e)) q)
  over :
      (dm_id max_active : ℕ) (e : Entry)
      → entry_of dm_id q.live.pending ≡ some e
      → is_claimed e.service_state ≡ false
      → max_active ≤ active q.live.pending
      → Step op q (change e.id (refuse_capacity (active q.live.pending) max_active) q)
  settled :
      (dm_id : ℕ) (receipt : Fields) (e : Entry) (j : Job)
      → entry_of dm_id q.live.pending ≡ some e
      → active_job e ≡ some j
      → ((op ≡ settle receipt) × IsServiceReceipt receipt dm_id j)
        ⊎ ((op ≡ reconcile receipt) × IsSpoolReceipt receipt dm_id j)
      → Step op q (acknowledge dm_id receipt q)
  ticked : (n : ℕ) → Step op q (persist (record q { live = record q.live { deferred_ticks = n } }))

enqueue-Step :
    {op : Operation} (now : ℕ) (dm : Dm) (q : DeliveryQueue) → Step op q (enqueue now dm q)
unfolding enqueue
enqueue-Step now dm q = elim (Bool-cases (any (λ e. e.id == dm.id) q.live.pending)) [
  | inl e ↦ rw e stay
  | inr e ↦ rw e (added now dm e)
]

eligibility-Step :
    {op : Operation} (dm_id : ℕ) (state reason : String) (q : DeliveryQueue)
    → Step op q (record_eligibility dm_id state reason q).1
unfolding record_eligibility
eligibility-Step dm_id state reason q = elim (Bool-cases (reason == "")) [
  | inl r ↦ rw r stay
  | inr r ↦ elim (Option-cases (eligibility_of state)) [
    | inl s ↦ rw (r, s) stay
    | inr (x, s) ↦ elim (Option-cases (entry_of dm_id q.live.pending)) [
      | inl n ↦ rw (r, s, n) stay
      | inr (e, n) ↦ rw (r, s, n) (decided dm_id x reason)
    ]
  ]
]

expired-Step :
    {op : Operation} (dm_id : ℕ) (reason : String) (q : DeliveryQueue)
    → Step op q (record_expired dm_id reason q).1
unfolding record_expired
expired-Step dm_id reason q = elim (Bool-cases (reason == "")) [
  | inl r ↦ rw r stay
  | inr r ↦ elim (Option-cases (entry_of dm_id q.live.pending)) [
    | inl n ↦ rw (r, n) stay
    | inr (e, n) ↦ elim (Bool-cases (is_claimed e.service_state)) [
      | inl c ↦ rw (r, n, c) stay
      | inr c ↦ rw (r, n, c) (lapsed dm_id reason e n c)
    ]
  ]
]

leb_≤ : (a b : ℕ) → leb a b ≡ true → a ≤ b
leb_≤ a b h = ground arith

leb_< : (a b : ℕ) → leb a b ≡ false → b < a
leb_< a b h = ground arith

claim_entry-Step :
    (source destination : String) (dm_id max_active : ℕ) (e : Entry) (q : DeliveryQueue)
    → entry_of dm_id q.live.pending ≡ some e
    → Step (claim dm_id destination max_active) q (claim_entry source destination max_active e q).1
unfolding claim_entry
claim_entry-Step source destination dm_id max_active e q n =
    elim (Bool-cases (is_claimed e.service_state)) [
      | inl c ↦ elim (Option-cases e.job) [
        | inl o ↦ rw (c, o) stay
        | inr (j, o) ↦ elim (Bool-cases (j.destination_peer == destination)) [
          | inl s ↦ rw (c, o, s) stay
          | inr s ↦ rw (c, o, s) stay
        ]
      ]
      | inr c ↦ elim (Bool-cases (leb max_active (active q.live.pending))) [
        | inl m ↦
            rw (c, m) (over dm_id max_active e n c (leb_≤ max_active (active q.live.pending) m))
        | inr m ↦
            rw (c, m)
              (granted dm_id source destination max_active e n c
                (leb_< max_active (active q.live.pending) m) refl)
      ]
    ]

claim-Step :
    (dm_id : ℕ) (destination : String) (max_active : ℕ) (q : DeliveryQueue)
    → Step
        (claim dm_id destination max_active)
        q
        (claim_for_service dm_id destination max_active q).1
unfolding claim_for_service
claim-Step dm_id destination max_active q =
    elim (Bool-cases (leb 1 max_active && not (destination == ""))) [
      | inr a ↦ rw a stay
      | inl a ↦ elim (Option-cases (entry_of dm_id q.live.pending)) [
        | inl n ↦ rw (a, n) stay
        | inr (e, n) ↦ elim (Option-cases (nonempty_str e.from)) [
          | inl s ↦ rw (a, n, s) stay
          | inr (source, s) ↦
              elim (Bool-cases (is_eligible e.eligibility && is_claimable e.obligation_state)) [
                | inr c ↦ rw (a, n, s, c) stay
                | inl c ↦
                    rw (a, n, s, c) (claim_entry-Step source destination dm_id max_active e q n)
              ]
        ]
      ]
    ]

remove-Step : (r : Fields) (q : DeliveryQueue) → Step (settle r) q (remove_on_receipt r q).1
unfolding remove_on_receipt
remove-Step r q = elim (Bool-cases (is_receipt r)) [
  | inr a ↦ rw a stay
  | inl a ↦ elim (Option-cases (id_of (get_or_null "source_dm_id" r))) [
    | inl i ↦ rw (a, i) stay
    | inr (dm_id, i) ↦ elim (Option-cases (entry_of dm_id q.live.pending)) [
      | inl n ↦ rw (a, i, n) stay
      | inr (e, n) ↦ elim (Option-cases (active_job e)) [
        | inl o ↦ rw (a, i, n, o) stay
        | inr (j, o) ↦ elim (Bool-cases (agree claim_fields r (job_dict j))) [
          | inl g ↦
              rw (a, i, n, o, g)
                (settled dm_id r e j n o (inl (refl, agree-IsServiceReceipt r dm_id j a i g)))
          | inr g ↦ rw (a, i, n, o, g) stay
        ]
      ]
    ]
  ]
]

reconcile-Step :
    (r : Fields) (q : DeliveryQueue) → Step (reconcile r) q (reconcile_spool_receipt r q).1
unfolding reconcile_spool_receipt
reconcile-Step r q = elim (Option-cases (spool_ref r)) [
  | inl a ↦ rw (reconcile_spool_receipt, a) stay
  | inr (ref, a) ↦ elim (Option-cases (id_of (get_or_null "queue_entry_id" ref))) [
    | inl i ↦ rw (reconcile_spool_receipt, a, i) stay
    | inr (dm_id, i) ↦ elim (Option-cases (entry_of dm_id q.live.pending)) [
      | inl n ↦ rw (reconcile_spool_receipt, a, i, n) stay
      | inr (e, n) ↦ elim (Option-cases (active_job e)) [
        | inl o ↦ rw (reconcile_spool_receipt, a, i, n, o) stay
        | inr (j, o) ↦ elim (Bool-cases (fits_claim ref r j)) [
          | inl g ↦
              rw (reconcile_spool_receipt, a, i, n, o, g)
                (settled dm_id r e j n o
                  (inr (refl, fits_claim-IsSpoolReceipt r ref dm_id j a i g)))
          | inr g ↦ rw (reconcile_spool_receipt, a, i, n, o, g) stay
        ]
      ]
    ]
  ]
]

-- Each operation takes one step.
pub serve-Step : (op : Operation) (q : DeliveryQueue) → Step op q (serve op q)
unfolding serve bump_deferred reset_deferred
serve-Step (drain now dm) q = enqueue-Step now dm q
serve-Step (evaluate dm_id state reason) q = eligibility-Step dm_id state reason q
serve-Step (lapse dm_id reason) q = expired-Step dm_id reason q
serve-Step (claim dm_id destination max_active) q = claim-Step dm_id destination max_active q
serve-Step (settle receipt) q = remove-Step receipt q
serve-Step (reconcile receipt) q = reconcile-Step receipt q
serve-Step bump q = ticked (q.live.deferred_ticks + 1)
serve-Step reset q = elim (Bool-cases (q.live.deferred_ticks == 0)) [
  | inl e ↦ rw e stay
  | inr e ↦ rw e (ticked 0)
]
