-- ===== src/Delivery/Status.antt =====
-- `status` of src/swarph_cli/delivery_queue.py: the owed work, counted by state.
use swarph_cli.Prelude.{
  ℕ, ◌+◌, ◌-◌, Bool, true, false, List, [], ◌∷◌, ◌≡◌, refl, arith, count, length, leb,
  if◌then◌else◌,
}
use swarph_cli.Delivery.Entries.{
  Eligibility, eligible, ineligible, cannot_evaluate, ServiceState, unassigned, claimed,
  capacity_refused, Obligation, owed, not_eligible, not_evaluated, over_capacity, expired, Entry,
  DeliveryQueue,
}

-- `max(0.0, observed_at - queued_at)`: the difference of ℕ stops at 0.
abbrev pub age : ℕ → Entry → ℕ
age now e = now - e.queued_at

-- `max(ages, default=0.0)`
unfoldable pub oldest_age : ℕ → List Entry → ℕ
oldest_age now [] = 0
oldest_age now (e ∷ es) =
    let oldest = oldest_age now es in if leb oldest (age now e) then age now e else oldest

abbrev pub same_eligibility : Eligibility → Entry → Bool
same_eligibility s e = elim s [
  | eligible ↦ elim e.eligibility [ eligible ↦ true | _ ↦ false ]
  | ineligible ↦ elim e.eligibility [ ineligible ↦ true | _ ↦ false ]
  | cannot_evaluate ↦ elim e.eligibility [ cannot_evaluate ↦ true | _ ↦ false ]
]

abbrev pub same_service : ServiceState → Entry → Bool
same_service s e = elim s [
  | unassigned ↦ elim e.service_state [ unassigned ↦ true | _ ↦ false ]
  | claimed ↦ elim e.service_state [ claimed ↦ true | _ ↦ false ]
  | capacity_refused ↦ elim e.service_state [ capacity_refused ↦ true | _ ↦ false ]
]

abbrev pub same_obligation : Obligation → Entry → Bool
same_obligation s e = elim s [
  | owed ↦ elim e.obligation_state [ owed ↦ true | _ ↦ false ]
  | not_eligible ↦ elim e.obligation_state [ not_eligible ↦ true | _ ↦ false ]
  | not_evaluated ↦ elim e.obligation_state [ not_evaluated ↦ true | _ ↦ false ]
  | over_capacity ↦ elim e.obligation_state [ over_capacity ↦ true | _ ↦ false ]
  | expired ↦ elim e.obligation_state [ expired ↦ true | _ ↦ false ]
]

pub record Status : Type 0 where
  pub owed_count : ℕ
  pub oldest_age_seconds : ℕ
  pub eligibility : Eligibility → ℕ
  pub service_state : ServiceState → ℕ
  pub obligation_state : Obligation → ℕ

-- `status`
unfoldable pub status : ℕ → DeliveryQueue → Status
unfolding oldest_age
status now q = record {
  owed_count = length q.live.pending;
  oldest_age_seconds = oldest_age now q.live.pending;
  eligibility = λ s. count (same_eligibility s) q.live.pending;
  service_state = λ s. count (same_service s) q.live.pending;
  obligation_state = λ s. count (same_obligation s) q.live.pending;
}

-- Tests of which exactly one holds of every row count each row once.
counts_once :
    {A : Type 0} (p q r : A → Bool)
    → ((a : A) → (if p a then 1 else 0) + ((if q a then 1 else 0) + (if r a then 1 else 0)) ≡ 1)
    → (xs : List A) → count p xs + (count q xs + count r xs) ≡ length xs
unfolding count
counts_once p q r h [] = refl
counts_once p q r h (x ∷ xs) = let one = h x in let rest = counts_once p q r h xs in omega arith

counts_once_five :
    {A : Type 0} (p q r s t : A → Bool)
    → ((a : A)
        → (if p a then 1 else 0)
            + ((if q a then 1 else 0)
                + ((if r a then 1 else 0) + ((if s a then 1 else 0) + (if t a then 1 else 0))))
          ≡ 1)
    → (xs : List A)
    → count p xs + (count q xs + (count r xs + (count s xs + count t xs))) ≡ length xs
unfolding count
counts_once_five p q r s t h [] = refl
counts_once_five p q r s t h (x ∷ xs) =
    let one = h x in let rest = counts_once_five p q r s t h xs in omega arith

-- Each of the three tables of counts adds up to the number of owed messages: no message is in two
-- states or in none.
status-adds_up :
    (now : ℕ) (q : DeliveryQueue)
    → let s = status now q in
      (s.eligibility eligible + (s.eligibility ineligible + s.eligibility cannot_evaluate)
        ≡ s.owed_count)
      × (s.service_state unassigned + (s.service_state claimed + s.service_state capacity_refused)
          ≡ s.owed_count)
      × (s.obligation_state owed
            + (s.obligation_state not_eligible
                + (s.obligation_state not_evaluated
                    + (s.obligation_state over_capacity + s.obligation_state expired)))
          ≡ s.owed_count)
unfolding status
status-adds_up now q = (
  counts_once (same_eligibility eligible) (same_eligibility ineligible)
      (same_eligibility cannot_evaluate) (λ e. ground arith) q.live.pending,
  counts_once (same_service unassigned) (same_service claimed) (same_service capacity_refused)
      (λ e. ground arith) q.live.pending,
  counts_once_five (same_obligation owed) (same_obligation not_eligible)
      (same_obligation not_evaluated) (same_obligation over_capacity) (same_obligation expired)
      (λ e. ground arith) q.live.pending,
)
