-- ===== src/Delivery/Claims.antt =====
-- What a claim of src/swarph_cli/delivery_queue.py grants.
use swarph_cli.Prelude.{
  ℕ, ◌<◌, String, some, true, false, not, ◌&&◌, List, [], ◌∷◌, ◌≡◌, refl, sym, ap, subst, ◌∙◌,
  arith, leb, ◌==◌, find, update_first, Bool-cases, Option-cases, ◌⊎◌, inl, inr, nat_eq, string_eq,
  eq_iff,
}
use swarph_cli.Prelude.Python.{nonempty_str}
use swarph_cli.Delivery.Entries.{
  is_claimed, is_eligible, is_claimable, Job, Entry, DeliveryQueue, done, entry_of,
}
use swarph_cli.Delivery.Operations.{change, active, new_job, assign, claim_entry, claim_for_service}
use swarph_cli.Delivery.Obligations.{token, token-next, same_id}

-- The claim `j` of `e` in the queue that was `q` and is `q'`: the one that stood already, with nothing
-- changed, or a new one with a greater fencing token than any before it.
abbrev pub Granted : ℕ → Entry → Job → DeliveryQueue → DeliveryQueue → Type 0
Granted dm_id e j q q' =
    ((is_claimed e.service_state ≡ true) × (e.job ≡ some j) × (q' ≡ q))
    ⊎ ((is_claimed e.service_state ≡ false)
        × (token e.job < j.fencing_token)
        × (entry_of dm_id q'.live.pending ≡ some (assign j e)))

changed_first :
    (dm_id : ℕ) (f : Entry → Entry) (es : List Entry) (e : Entry)
    → ((k : Entry) → (f k).id ≡ k.id)
    → find (λ (k : Entry). k.id == dm_id) es ≡ some e
    → find (λ (k : Entry). k.id == dm_id) (update_first (λ k. k.id == dm_id) f es) ≡ some (f e)
unfolding find update_first
changed_first dm_id f [] e same h = cc
changed_first dm_id f (k ∷ ks) e same h = elim (Bool-cases (k.id == dm_id)) [
  | inl m ↦ let kept = same k in ground arith
  | inr m ↦ let rest = changed_first dm_id f ks e same (ground arith) in ground arith
]

change-entry_of :
    (dm_id : ℕ) (f : Entry → Entry) (q : DeliveryQueue) (e : Entry)
    → ((k : Entry) → (f k).id ≡ k.id)
    → entry_of dm_id q.live.pending ≡ some e
    → entry_of dm_id (change e.id f q).live.pending ≡ some (f e)
unfolding entry_of change
change-entry_of dm_id f q e same n =
    subst (λ i. entry_of dm_id (change i f q).live.pending ≡ some (f e)) (sym (same_id dm_id q e n))
      (changed_first dm_id f q.live.pending e same n)

claim_entry-Granted :
    (source destination : String) (dm_id max_active : ℕ) (e : Entry) (q : DeliveryQueue) (j : Job)
    → entry_of dm_id q.live.pending ≡ some e
    → (claim_entry source destination max_active e q).0 ≡ done (some j)
    → (j.destination_peer ≡ destination)
      × Granted dm_id e j q (claim_entry source destination max_active e q).1
unfolding claim_entry
claim_entry-Granted source destination dm_id max_active e q j n h =
    elim (Bool-cases (is_claimed e.service_state)) [
      | inl c ↦ elim (Option-cases e.job) [
        | inl o ↦ absurd (let h' = rw (c, o) at h in cc)
        | inr (k, o) ↦ elim (Bool-cases (k.destination_peer == destination)) [
          | inl s ↦
              let one : k ≡ j = let h' = rw (c, o, s) at h in cc in
              (
                ap (λ (x : Job). x.destination_peer) (sym one)
                    ∙ (eq_iff k.destination_peer destination).0 s,
                rw (c, o, s) (inl (refl, ap some one, refl)),
              )
          | inr s ↦ absurd (let h' = rw (c, o, s) at h in cc)
        ]
      ]
      | inr c ↦ elim (Bool-cases (leb max_active (active q.live.pending))) [
        | inl m ↦ absurd (let h' = rw (c, m) at h in cc)
        | inr m ↦
            let one : new_job source destination e ≡ j = let h' = rw (c, m) at h in cc in
            subst
              (λ (x : Job).
                (x.destination_peer ≡ destination)
                × Granted dm_id e x q (claim_entry source destination max_active e q).1)
              one (named, rw (c, m) (inr (refl, greater, stored)))
      ]
    ]
  where
    named : (new_job source destination e).destination_peer ≡ destination
    named = unfold new_job in refl

    greater : token e.job < (new_job source destination e).fencing_token
    greater = unfold new_job in token-next e.job

    stored :
        entry_of dm_id (change e.id (assign (new_job source destination e)) q).live.pending
        ≡ some (assign (new_job source destination e) e)
    stored =
        change-entry_of dm_id (assign (new_job source destination e)) q e
          (λ k. unfold assign in refl) n

-- A claim is granted only for a message of the ledger that is eligible and claimable, to the peer that
-- asks. It is the claim that this peer holds already, and nothing changes, or a new one whose fencing
-- token is greater than that of any claim before it, and the message is stored with it.
pub claim_for_service-Granted :
    (dm_id : ℕ) (destination : String) (max_active : ℕ) (q : DeliveryQueue) (j : Job)
    → (claim_for_service dm_id destination max_active q).0 ≡ done (some j)
    → (e : Entry) × (entry_of dm_id q.live.pending ≡ some e)
      × ((is_eligible e.eligibility && is_claimable e.obligation_state) ≡ true)
      × (j.destination_peer ≡ destination)
      × Granted dm_id e j q (claim_for_service dm_id destination max_active q).1
unfolding claim_for_service
claim_for_service-Granted dm_id destination max_active q j h =
    elim (Bool-cases (leb 1 max_active && not (destination == ""))) [
      | inr a ↦ absurd (let h' = rw a at h in cc)
      | inl a ↦ elim (Option-cases (entry_of dm_id q.live.pending)) [
        | inl n ↦ absurd (let h' = rw (a, n) at h in cc)
        | inr (e, n) ↦ elim (Option-cases (nonempty_str e.from)) [
          | inl s ↦ absurd (let h' = rw (a, n, s) at h in cc)
          | inr (source, s) ↦
              elim (Bool-cases (is_eligible e.eligibility && is_claimable e.obligation_state)) [
                | inr c ↦ absurd (let h' = rw (a, n, s, c) at h in cc)
                | inl c ↦
                    let (to, granted) =
                      claim_entry-Granted source destination dm_id max_active e q j n
                        (rw (a, n, s, c) at h) in
                    (e, n, c, to, rw (a, n, s, c) granted)
              ]
        ]
      ]
    ]
