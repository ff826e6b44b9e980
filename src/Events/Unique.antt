-- ===== src/Events/Unique.antt =====
-- No two rows of the outbox have one ID, so that a claim takes due rows only.
use go_book.Base.{
  All, All-append, Bool, Bool-cases, List, [], arith, false, inl, inr, suc, sym, true, zero, ℕ,
  ◌++◌, ◌∷◌, ◌≡◌, ◌≢◌, ◌⊎◌,
}
use go_book.Base.Int.{int_laws, pos, ℤ, ◌+ℤ◌, ◌≤ℤ◌}
use go_book.Base.Text.{Text, text_eq_iff}
use go_book.Events.Claim.{claimed, due_rows, first_ids, id_taken, insert_due, is_among, is_due}
use go_book.Events.Envelope.{Time}
use go_book.Events.Outbox.{OutboxRow, update_where}
use go_book.Events.Rows.{Keeps}

one_more : (a : ℤ) → pos 0 ≤ℤ a → pos 0 ≤ℤ a +ℤ pos 1
one_more a h = omega int_laws

module _ {P : Type 0} where
  abbrev pub AreUnique : List (OutboxRow P) → Type 0
  AreUnique [] = Unit
  AreUnique (r ∷ rs) = All (λ s. s.envelope.id ≢ r.envelope.id) rs × AreUnique rs

  -- A row with this ID, and one that is due.
  abbrev AnyWith : Text → List (OutboxRow P) → Type 0
  AnyWith id [] = ⊥
  AnyWith id (r ∷ rs) = (r.envelope.id ≡ id) ⊎ AnyWith id rs

  abbrev AnyDue : Time → Text → List (OutboxRow P) → Type 0
  AnyDue now id [] = ⊥
  AnyDue now id (r ∷ rs) = ((r.envelope.id ≡ id) × (is_due now r ≡ true)) ⊎ AnyDue now id rs

  insert_due-with :
      (id : Text) (r : OutboxRow P) (rs : List (OutboxRow P))
      → AnyWith id (insert_due r rs)
      → (r.envelope.id ≡ id) ⊎ AnyWith id rs
  unfolding insert_due
  insert_due-with id r [] h = h
  insert_due-with id r (s ∷ ss) h = ground (arith, insert_due-with id r ss)

  due_rows-due :
      (now : Time) (id : Text) (rs : List (OutboxRow P))
      → AnyWith id (due_rows now rs)
      → AnyDue now id rs
  unfolding due_rows
  due_rows-due now id [] h = h
  due_rows-due now id (r ∷ rs) h =
      ground (arith, due_rows-due now id rs, insert_due-with id r (due_rows now rs))

  first_ids-with :
      (n : ℕ) (rs : List (OutboxRow P)) (r : OutboxRow P)
      → is_among (first_ids n rs) r ≡ true
      → AnyWith r.envelope.id rs
  unfolding first_ids is_among
  first_ids-with zero rs r h = cc
  first_ids-with (suc n) [] r h = cc
  first_ids-with (suc n) (s ∷ ss) r h =
      ground (arith, text_eq_iff s.envelope.id r.envelope.id, first_ids-with n ss r)

  not_again :
      (now : Time) (id : Text) (rs : List (OutboxRow P))
      → All (λ s. s.envelope.id ≢ id) rs
      → ¬ AnyDue now id rs
  not_again now id [] h d = d
  not_again now id (r ∷ rs) (h, hs) d = ground (arith, not_again now id rs hs)

  abbrev AllDue : Time → List (OutboxRow P) → List (OutboxRow P) → Type 0
  AllDue now rs = All (λ q. AnyDue now q.envelope.id rs → is_due now q ≡ true)

  weaken :
      (now : Time) (r : OutboxRow P) (rs qs : List (OutboxRow P))
      → All (λ q. q.envelope.id ≢ r.envelope.id) qs
      → AllDue now rs qs
      → AllDue now (r ∷ rs) qs
  weaken now r rs [] ne h = tt
  weaken now r rs (q ∷ qs) (ne, nes) (h, hs) = (
    λ d. elim d [ inl (same, _) ↦ absurd (ne (sym same)) | inr later ↦ h later ],
    weaken now r rs qs nes hs,
  )

  -- Where a row has the ID of a due row it is that row.
  due_itself : (now : Time) (rs : List (OutboxRow P)) → AreUnique rs → AllDue now rs rs
  due_itself now [] u = tt
  due_itself now (r ∷ rs) (u, us) = (
    λ d. elim d [
      | inl (_, due) ↦ due
      | inr later ↦ absurd (not_again now r.envelope.id rs u later)
    ],
    weaken now r rs rs u (due_itself now rs us),
  )

  claimed-Keeps :
      (now : Time) (worker_id : Text) (taken : OutboxRow P → Bool) (r : OutboxRow P)
      → (taken r ≡ true → is_due now r ≡ true)
      → Keeps taken (claimed now worker_id) r
  claimed-Keeps now worker_id taken r due h hit =
      let at = due hit in ground (arith, one_more r.attempt_count)

  all_claimed :
      (now : Time) (worker_id : Text) (n : ℕ) (rs qs : List (OutboxRow P))
      → AllDue now rs qs
      → All (Keeps (is_among (first_ids n (due_rows now rs))) (claimed now worker_id)) qs
  all_claimed now worker_id n rs [] h = tt
  all_claimed now worker_id n rs (q ∷ qs) (h, hs) = (
    claimed-Keeps now worker_id (is_among (first_ids n (due_rows now rs))) q
        (λ hit. h (due_rows-due now q.envelope.id rs (first_ids-with n (due_rows now rs) q hit))),
    all_claimed now worker_id n rs qs hs,
  )

  -- A claim takes rows along the life cycle: each is due and counts one more attempt.
  pub claim-Moves :
      (now : Time) (worker_id : Text) (n : ℕ) (rs : List (OutboxRow P))
      → AreUnique rs
      → All (Keeps (is_among (first_ids n (due_rows now rs))) (claimed now worker_id)) rs
  claim-Moves now worker_id n rs u = all_claimed now worker_id n rs rs (due_itself now rs u)

  update_where-all :
      (id : Text) (test : OutboxRow P → Bool) (change : OutboxRow P → OutboxRow P)
      (rs : List (OutboxRow P))
      → ((r : OutboxRow P) → (change r).envelope ≡ r.envelope)
      → All (λ s. s.envelope.id ≢ id) rs
      → All (λ s. s.envelope.id ≢ id) (update_where test change rs)
  unfolding update_where
  update_where-all id test change [] k h = tt
  update_where-all id test change (r ∷ rs) k (h, hs) =
      let ih = update_where-all id test change rs k hs in
      elim (Bool-cases (test r)) [ inl hit ↦ rw hit (rw (k r) h, ih) | inr miss ↦ rw miss (h, ih) ]

  pub update_where-AreUnique :
      (test : OutboxRow P → Bool) (change : OutboxRow P → OutboxRow P) (rs : List (OutboxRow P))
      → ((r : OutboxRow P) → (change r).envelope ≡ r.envelope)
      → AreUnique rs
      → AreUnique (update_where test change rs)
  unfolding update_where
  update_where-AreUnique test change [] k u = tt
  update_where-AreUnique test change (r ∷ rs) k (u, us) =
      let ih = update_where-AreUnique test change rs k us in
      let others = update_where-all r.envelope.id test change rs k u in
      elim (Bool-cases (test r)) [
        | inl hit ↦ rw hit (rw (k r) others, ih)
        | inr miss ↦ rw miss (others, ih)
      ]

  pub append-AreUnique :
      (rs : List (OutboxRow P)) (r : OutboxRow P)
      → id_taken r.envelope.id rs ≡ false
      → AreUnique rs
      → AreUnique (rs ++ r ∷ [])
  unfolding id_taken
  append-AreUnique [] r new u = (tt, tt)
  append-AreUnique (s ∷ ss) r new (u, us) = (
    All-append (λ (q : OutboxRow P). q.envelope.id ≢ s.envelope.id) ss (r ∷ []) u
        (ground (arith, text_eq_iff r.envelope.id s.envelope.id), tt),
    append-AreUnique ss r (ground arith) us,
  )
