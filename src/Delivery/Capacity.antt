-- ===== src/Delivery/Capacity.antt =====
-- The claims in service of src/swarph_cli/delivery_queue.py: their bound, and what a granted claim is.
use swarph_cli.Prelude.{
  ℕ, ◌<◌, ◌≤◌, String, true, [], ◌∷◌, ◌++◌, ◌≡◌, arith, leb, ◌==◌, if◌then◌else◌, nat_eq, string_eq,
  count-update_first, count-update_first_le, count-remove_first, count-append_one,
}
use swarph_cli.Prelude.Python.{Fields}
use swarph_cli.Delivery.Entries.{is_claimed, Job, Entry, DeliveryQueue}
use swarph_cli.Delivery.Operations.{
  set_pending, change, Dm, new_entry, evaluated, expire, active, refuse_capacity, new_job, assign,
  acknowledge,
}
use swarph_cli.Delivery.Steps.{
  Operation, drain, evaluate, lapse, claim, settle, reconcile, bump, reset, serve, Step, stay,
  added, decided, lapsed, granted, over, settled, ticked, serve-Step,
}

active-change :
    (dm_id : ℕ) (f : Entry → Entry) (q : DeliveryQueue)
    → ((e : Entry) → is_claimed (f e).service_state ≡ true → is_claimed e.service_state ≡ true)
    → active (change dm_id f q).live.pending ≤ active q.live.pending
unfolding change active
active-change dm_id f q h =
    count-update_first_le (λ e. e.id == dm_id) f (λ e. is_claimed e.service_state) h q.live.pending

active-granted :
    (dm_id max_active : ℕ) (j : Job) (q : DeliveryQueue)
    → active q.live.pending < max_active
    → active (change dm_id (assign j) q).live.pending ≤ max_active
unfolding change active
active-granted dm_id max_active j q h =
    let one =
      count-update_first (λ (e : Entry). e.id == dm_id) (assign j) (λ e. is_claimed e.service_state)
        q.live.pending in
    omega arith

-- The bound that a call puts on the claims in service, where `n` are in service before it.
abbrev pub bound : Operation → ℕ → ℕ
bound (claim dm_id destination max_active) n = if leb n max_active then max_active else n
bound _ n = n

bound_least : (op : Operation) (n : ℕ) → n ≤ bound op n
bound_least (drain now dm) n = omega arith
bound_least (evaluate dm_id state reason) n = omega arith
bound_least (lapse dm_id reason) n = omega arith
bound_least (claim dm_id destination max_active) n = ground arith
bound_least (settle r) n = omega arith
bound_least (reconcile r) n = omega arith
bound_least bump n = omega arith
bound_least reset n = omega arith

bound_claim :
    (op : Operation) (dm_id max_active n : ℕ) (destination : String)
    → op ≡ claim dm_id destination max_active
    → max_active ≤ bound op n
bound_claim op dm_id max_active n destination h = rw h (ground arith)

active-added :
    (now : ℕ) (dm : Dm) (q : DeliveryQueue)
    → active (set_pending (λ pending. pending ++ new_entry now dm ∷ []) q).live.pending
      ≤ active q.live.pending
unfolding active set_pending new_entry
active-added now dm q =
    let same =
      count-append_one (λ (e : Entry). is_claimed e.service_state) q.live.pending
        (new_entry now dm) in
    omega arith

active-settled :
    (dm_id : ℕ) (r : Fields) (q : DeliveryQueue)
    → active (acknowledge dm_id r q).live.pending ≤ active q.live.pending
unfolding active acknowledge
active-settled dm_id r q =
    count-remove_first (λ e. e.id == dm_id) (λ e. is_claimed e.service_state) q.live.pending

Step-active :
    (op : Operation) (q q' : DeliveryQueue)
    → Step op q q'
    → active q'.live.pending ≤ bound op (active q.live.pending)
Step-active op q _ stay = bound_least op _
Step-active op q _ (added now dm n) =
    let least = bound_least op (active q.live.pending) in
    let same = active-added now dm q in omega arith
Step-active op q _ (decided dm_id state reason) =
    let least = bound_least op (active q.live.pending) in
    let kept = active-change dm_id (evaluated state reason) q (λ e h. unfold evaluated in h) in
    omega arith
Step-active op q _ (lapsed dm_id reason e n c) =
    let least = bound_least op (active q.live.pending) in
    let kept = active-change dm_id (expire reason) q (λ e h. unfold expire in h) in omega arith
Step-active op q _ (granted dm_id source destination max_active e n c m o) =
    let most = active-granted e.id max_active (new_job source destination e) q m in
    let within = bound_claim op dm_id max_active (active q.live.pending) destination o in
    omega arith
Step-active op q _ (over dm_id max_active e n c m) =
    let least = bound_least op (active q.live.pending) in
    let kept =
      active-change e.id (refuse_capacity (active q.live.pending) max_active) q
        (λ e h. unfold refuse_capacity in ground (arith, h)) in
    omega arith
Step-active op q _ (settled dm_id r e j n a o) =
    let least = bound_least op (active q.live.pending) in
    let fewer = active-settled dm_id r q in omega arith
Step-active op q _ (ticked n) = bound_least op _

-- No operation brings the claims in service over the `max_active` that a claim gives, nor adds to
-- them where it is no claim: before and after, they stay within that bound if they were.
pub serve-active :
    (op : Operation) (q : DeliveryQueue)
    → active (serve op q).live.pending ≤ bound op (active q.live.pending)
serve-active op q = Step-active op q (serve op q) (serve-Step op q)
