-- ===== src/Delivery/Invariant.antt =====
-- The ledger of src/swarph_cli/delivery_queue.py under its operations.
use swarph_cli.Prelude.{
  ℕ, ◌≤◌, Option, none, some, Bool, false, List, [], ◌∷◌, ◌++◌, ◌≡◌, refl, sym, ◌∙◌, arith, ◌==◌,
  any, any-append, All, Bool-cases, inl, inr, nat_eq, string_eq, eq_iff, update_first, remove_first,
  any-update_first, All-update_first, any-remove_first, All-remove_first, All-append_one,
}
use swarph_cli.Delivery.Entries.{ServiceState, claimed, Job, Entry, DeliveryQueue}
use swarph_cli.Delivery.Operations.{
  set_pending, change, new_entry, evaluated, expire, active, refuse_capacity, next_token, new_job,
  assign, acknowledge,
}
use swarph_cli.Delivery.Steps.{
  Operation, serve, Step, stay, added, decided, lapsed, granted, over, settled, ticked, serve-Step,
}

abbrev has_id : ℕ → Entry → Bool
has_id n e = e.id == n

-- No two entries have one id.
abbrev pub UniqueIds : List Entry → Type 0
UniqueIds [] = Unit
UniqueIds (e ∷ es) = (any (λ (k : Entry). k.id == e.id) es ≡ false) × UniqueIds es

-- An entry in service has a claim, and the claim names the entry's message.
abbrev pub ClaimOk : ServiceState → ℕ → Option Job → Type 0
ClaimOk claimed id job = (j : Job) × (job ≡ some j) × (j.source_dm_id ≡ id) × (1 ≤ j.fencing_token)
ClaimOk _ id job = Unit

abbrev pub EntryOk : Entry → Type 0
EntryOk e = ClaimOk e.service_state e.id e.job

pub record IsLedger (q : DeliveryQueue) : Type 0 where
  pub unique : UniqueIds q.live.pending
  pub entries : All EntryOk q.live.pending
  pub saved : q.file ≡ q.live

-- A change of an entry that keeps its id.
module _ (p : Entry → Bool) (f : Entry → Entry) (same : (e : Entry) → (f e).id ≡ e.id) where
  has_id-same : (n : ℕ) (e : Entry) → has_id n (f e) ≡ has_id n e
  has_id-same n e = rw (same e) refl

  UniqueIds-update_first : (es : List Entry) → UniqueIds es → UniqueIds (update_first p f es)
  unfolding update_first
  UniqueIds-update_first [] u = u
  UniqueIds-update_first (e ∷ es) u = elim (Bool-cases (p e)) [
    | inl h ↦ rw (h, same e) u
    | inr h ↦ rw h (
      any-update_first p f (has_id e.id) (has_id-same e.id) es ∙ u.0,
      UniqueIds-update_first es u.1,
    )
  ]

UniqueIds-remove_first :
    (p : Entry → Bool) (es : List Entry) → UniqueIds es → UniqueIds (remove_first p es)
unfolding remove_first
UniqueIds-remove_first p [] u = u
UniqueIds-remove_first p (e ∷ es) u = elim (Bool-cases (p e)) [
  | inl h ↦ rw h u.1
  | inr h ↦ rw h (any-remove_first p (has_id e.id) es u.0, UniqueIds-remove_first p es u.1)
]

UniqueIds-append :
    (es : List Entry) (new : Entry)
    → UniqueIds es
    → any (has_id new.id) es ≡ false
    → UniqueIds (es ++ new ∷ [])
unfolding any
UniqueIds-append [] new u h = (refl, tt)
UniqueIds-append (e ∷ es) new u h = (
  any-append (has_id e.id) es (new ∷ [])
      ∙ ground (arith, u.0, eq_iff e.id new.id, eq_iff new.id e.id),
  UniqueIds-append es new u.1 (ground arith),
)

change-IsLedger :
    (dm_id : ℕ) (f : Entry → Entry) (q : DeliveryQueue)
    → ((e : Entry) → (f e).id ≡ e.id)
    → ((e : Entry) → e.id ≡ dm_id → EntryOk e → EntryOk (f e))
    → IsLedger q
    → IsLedger (change dm_id f q)
unfolding change
change-IsLedger dm_id f q same ok l = record {
  unique = UniqueIds-update_first (has_id dm_id) f same q.live.pending l.unique;
  entries =
      All-update_first (has_id dm_id) f EntryOk (λ e h. ok e ((eq_iff e.id dm_id).0 h))
        q.live.pending l.entries;
  saved = refl;
}

next_token_positive : (o : Option Job) → 1 ≤ next_token o
unfolding next_token
next_token_positive none = omega arith
next_token_positive (some j) = omega arith

Step-IsLedger : (op : Operation) (q q' : DeliveryQueue) → Step op q q' → IsLedger q → IsLedger q'
unfolding evaluated expire assign refuse_capacity new_entry new_job acknowledge set_pending
Step-IsLedger op q _ stay l = l
Step-IsLedger op q _ (added now dm h) l = record {
  unique = UniqueIds-append q.live.pending (new_entry now dm) l.unique h;
  entries = All-append_one EntryOk q.live.pending (new_entry now dm) l.entries tt;
  saved = refl;
}
Step-IsLedger op q _ (decided dm_id state reason) l =
    change-IsLedger dm_id (evaluated state reason) q (λ e. refl) (λ e s ok. ok) l
Step-IsLedger op q _ (lapsed dm_id reason e n c) l =
    change-IsLedger dm_id (expire reason) q (λ e. refl) (λ e s ok. ok) l
Step-IsLedger op q _ (granted dm_id source destination max_active e n c m o) l =
    change-IsLedger e.id (assign (new_job source destination e)) q (λ e. refl)
      (λ k s ok. (new_job source destination e, refl, sym s, next_token_positive e.job)) l
Step-IsLedger op q _ (over dm_id max_active e n c m) l =
    change-IsLedger e.id (refuse_capacity (active q.live.pending) max_active) q (λ e. refl)
      (λ k s ok. tt) l
Step-IsLedger op q _ (settled dm_id r e j n a o) l = record {
  unique = UniqueIds-remove_first (has_id dm_id) q.live.pending l.unique;
  entries = All-remove_first (has_id dm_id) EntryOk q.live.pending l.entries;
  saved = refl;
}
Step-IsLedger op q _ (ticked n) l = record { unique = l.unique; entries = l.entries; saved = refl }

-- Every operation, refused or not, keeps the ledger in order: ids are unique, an entry in service has
-- a claim that names its message and has a positive fencing token, and the file holds what memory
-- does.
pub serve-IsLedger : (op : Operation) (q : DeliveryQueue) → IsLedger q → IsLedger (serve op q)
serve-IsLedger op q l = Step-IsLedger op q (serve op q) (serve-Step op q) l
