-- ===== src/Spool/Rest.antt =====
-- The rest of a `produce_receipt` of src/swarph_cli/peer_executor.py, run again after a crash.
use swarph_cli.Prelude.{
  ℕ, zero, suc, String, none, some, true, ◌&&◌, List, [], ◌∷◌, take, ◌≡◌, refl, sym, ap, subst, ◌∙◌,
  Bool-cases, Option-cases, inl, inr, string_eq, nat_eq, All,
}
use swarph_cli.Prelude.Python.{Fields, dict, value_eq}
use swarph_cli.Delivery.Entries.{Result, done}
use swarph_cli.Spool.Files.{
  Output, PeerSpool, Write, write_job, move_job, write_claim, write_text, write_receipt,
  write_atomic, write_all,
}
use swarph_cli.Spool.Results.{is_accepted, same_output, finish}
use swarph_cli.Spool.Changes.{put_same}
use swarph_cli.Spool.Steps.{same_output-digest}

module _ (sha256 : String → String) where
  -- The rest of the call, from the files at the spool.
  abbrev pub finish_at : String → Fields → Output → String → PeerSpool → Result Fields × List Write
  finish_at id r out name s = finish sha256 id r out name (s.receipts id) (s.outputs name) s

  module _ (id : String) (r : Fields) (out : Output) (name : String)
      (same_receipt : value_eq (dict r) (dict r) ≡ true)
      (same_out : same_output out out ≡ true) where
    -- The receipt stands already.
    settled :
        (t : PeerSpool)
        → t.receipts id ≡ some r
        → is_accepted sha256 r t ≡ true
        → finish_at id r out name t ≡ (done r, [])
    unfolding finish
    settled t e a = rw (finish, e, a, same_receipt) refl

    -- The output stands, the receipt does not.
    half :
        (t : PeerSpool)
        → t.receipts id ≡ none
        → t.outputs name ≡ some out
        → finish_at id r out name t ≡ (done r, write_receipt id r ∷ [])
    unfolding finish
    half t e o = rw (finish, e, o, same_out) refl

    -- A second run of the rest, at the spool that the first `n` of the writes left.
    abbrev pub Resumes : PeerSpool → List Write → Fields → ℕ → Type 0
    Resumes s ws answer n =
        let t = write_all (take n ws) s in
        ((finish_at id r out name t).0 ≡ done answer)
        × (write_all (finish_at id r out name t).1 t ≡ write_all ws s)

    -- What one run answers and leaves.
    ran :
        (t : PeerSpool) (answer : Fields) (ws : List Write)
        → finish_at id r out name t ≡ (done answer, ws)
        → ((finish_at id r out name t).0 ≡ done answer)
          × (write_all (finish_at id r out name t).1 t ≡ write_all ws t)
    ran t answer ws q = (ap (λ c. c.0) q, ap (λ c. write_all c.1 t) q)

    none_again :
        (s : PeerSpool) (answer : Fields) (n : ℕ)
        → finish_at id r out name s ≡ (done answer, [])
        → Resumes s [] answer n
    unfolding write_all
    none_again s answer zero q = ran s answer [] q
    none_again s answer (suc n) q = ran s answer [] q

    module _ (s : PeerSpool)
        (good : (t : PeerSpool) (o : Output)
          → t.running id ≡ s.running id
          → t.claims id ≡ s.claims id
          → t.outputs name ≡ some o
          → o.output_digest ≡ out.output_digest
          → is_accepted sha256 r t ≡ true) where
      one_again :
          (old : Output) (n : ℕ)
          → s.outputs name ≡ some old
          → old.output_digest ≡ out.output_digest
          → finish_at id r out name s ≡ (done r, write_receipt id r ∷ [])
          → Resumes s (write_receipt id r ∷ []) r n
      unfolding write_all write_atomic
      one_again old zero o d q = ran s r _ q
      one_again old (suc n) o d q =
          let t = write_atomic (write_receipt id r) s in
          let again : Resumes t [] r n =
            none_again t r n (settled t (put_same id r s.receipts) (good t old refl refl o d)) in
          again

      two_again :
          (n : ℕ)
          → s.receipts id ≡ none
          → finish_at id r out name s ≡ (done r, write_text name out ∷ write_receipt id r ∷ [])
          → Resumes s (write_text name out ∷ write_receipt id r ∷ []) r n
      unfolding write_all write_atomic
      two_again zero e q = ran s r _ q
      two_again (suc zero) e q =
          let t = write_atomic (write_text name out) s in
          ran t r _ (half t e (put_same name out s.outputs))
      two_again (suc (suc n)) e q =
          let t = write_atomic (write_receipt id r) (write_atomic (write_text name out) s) in
          let again : Resumes t [] r n = none_again t r n (
            settled t (put_same id r s.receipts)
              (good t out refl refl (put_same name out s.outputs) refl)) in
          again

      -- With what the first run is known to have answered.
      known :
          (answer given : Fields) (ws : List Write) (n : ℕ)
          → finish_at id r out name s ≡ (done given, ws)
          → (finish_at id r out name s).0 ≡ done answer
          → Resumes s ws given n
          → Resumes s (finish_at id r out name s).1 answer n
      known answer given ws n q h a =
          let same : given ≡ answer = let h' = sym (ap (λ c. c.0) q) ∙ h in cc in
          subst (λ x. Resumes s (finish_at id r out name s).1 x n) same
            (subst (λ c. Resumes s c.1 given n) (sym q) a)

      pub finish-again :
          (answer : Fields) (n : ℕ)
          → (finish_at id r out name s).0 ≡ done answer
          → Resumes s (finish_at id r out name s).1 answer n
      unfolding finish
      finish-again answer n h = elim (Option-cases (s.receipts id)) [
        | inr (stored, e) ↦
            elim (Bool-cases (is_accepted sha256 stored s && value_eq (dict stored) (dict r))) [
              | inl b ↦
                  let q : finish_at id r out name s ≡ (done stored, []) = rw (finish, e, b) refl in
                  known answer stored [] n q h (none_again s stored n q)
              | inr b ↦ absurd (let h' = rw (finish, e, b) at h in cc)
            ]
        | inl e ↦ elim (Option-cases (s.outputs name)) [
          | inr (old, o) ↦ elim (Bool-cases (same_output old out)) [
            | inr b ↦ absurd (let h' = rw (finish, e, o, b) at h in cc)
            | inl b ↦
                let q : finish_at id r out name s ≡ (done r, write_receipt id r ∷ []) =
                  rw (finish, e, o, b) refl in
                known answer r _ n q h (one_again old n o (same_output-digest sha256 old out b) q)
          ]
          | inl o ↦
              let q : finish_at id r out name s
                  ≡ (done r, write_text name out ∷ write_receipt id r ∷ []) =
                rw (finish, e, o) refl in
              known answer r _ n q h (two_again n e q)
        ]
      ]

  -- A write of an output or a receipt.
  abbrev pub IsResult : Write → Type 0
  IsResult (write_text _ _) = Unit
  IsResult (write_receipt _ _) = Unit
  IsResult _ = ⊥

  pub finish-IsResult :
      (id : String) (r : Fields) (out : Output) (name : String) (s : PeerSpool)
      → All IsResult (finish_at id r out name s).1
  unfolding finish
  finish-IsResult id r out name s = elim (Option-cases (s.receipts id)) [
    | inr (stored, e) ↦
        elim (Bool-cases (is_accepted sha256 stored s && value_eq (dict stored) (dict r))) [
          | inl b ↦ rw (finish, e, b) tt
          | inr b ↦ rw (finish, e, b) tt
        ]
    | inl e ↦ elim (Option-cases (s.outputs name)) [
      | inr (old, o) ↦ elim (Bool-cases (same_output old out)) [
        | inl b ↦ rw (finish, e, o, b) (tt, tt)
        | inr b ↦ rw (finish, e, o, b) tt
      ]
      | inl o ↦ rw (finish, e, o) (tt, (tt, tt))
    ]
  ]

  -- Outputs and receipts leave jobs and claims alone.
  pub results-keep :
      (n : ℕ) (ws : List Write) (s : PeerSpool)
      → All IsResult ws
      → ((write_all (take n ws) s).running ≡ s.running)
        × ((write_all (take n ws) s).claims ≡ s.claims)
  unfolding write_all write_atomic
  results-keep zero ws s h = (refl, refl)
  results-keep (suc n) [] s h = (refl, refl)
  results-keep (suc n) (write_text name o ∷ ws) s h =
      results-keep n ws (write_atomic (write_text name o) s) h.1
  results-keep (suc n) (write_receipt k x ∷ ws) s h =
      results-keep n ws (write_atomic (write_receipt k x) s) h.1
  results-keep (suc n) (write_job _ _ ∷ ws) s h = absurd h.0
  results-keep (suc n) (move_job _ _ ∷ ws) s h = absurd h.0
  results-keep (suc n) (write_claim _ _ ∷ ws) s h = absurd h.0
