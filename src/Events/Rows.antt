-- ===== src/Events/Rows.antt =====
-- The rows of the outbox: the CHECK constraints of the table, and the moves of a row.
use go_book.Base.{
  All, Bool, Bool-cases, List, Option, [], arith, false, inl, inr, none, refl, some, true, ◌∷◌, ◌≡◌,
  ◌≢◌, ◌⊎◌,
}
use go_book.Base.Int.{pos, ◌+ℤ◌, ◌≤ℤ◌}
use go_book.Base.Text.{Text, is_blank}
use go_book.Events.Backoff.{
  OutboxState, other_outbox, outbox_can_transition, outbox_completed, outbox_failed, outbox_pending,
  outbox_processing,
}
use go_book.Events.Envelope.{Time}
use go_book.Events.Outbox.{
  OutboxRow, completed, failed, in_processing, is_stale, released, retried, update_where,
}

-- The value is there.
abbrev pub IsSome {ℓ} : {A : Type ℓ} → Option A → Type 0
IsSome none = ⊥
IsSome (some _) = Unit

abbrev IsReason : Option Text → Type 0
IsReason none = ⊥
IsReason (some text) = is_blank text ≡ false

-- From pending to processing, and from there to an end or back.
abbrev IsOnward : OutboxState → OutboxState → Type 0
IsOnward s s' =
    ((s ≡ outbox_pending) × (s' ≡ outbox_processing))
    ⊎ ((s ≡ outbox_processing)
        × ((s' ≡ outbox_pending) ⊎ (s' ≡ outbox_completed) ⊎ (s' ≡ outbox_failed)))

-- The life cycle of the source allows each of these moves.
IsOnward-outbox_can_transition :
    (s s' : OutboxState) → IsOnward s s' → outbox_can_transition s s' ≡ true
unfolding outbox_can_transition
IsOnward-outbox_can_transition s s' h = ground arith

module _ {P : Type 0} where
  -- What the state of a row says of its other columns. A row that is processed has not ended either,
  -- so that it may go back to pending.
  abbrev InState : OutboxState → OutboxRow P → Type 0
  InState outbox_pending r = (r.completed_at ≡ none) × (r.failed_at ≡ none)
  InState outbox_processing r =
      IsSome r.locked_at × IsSome r.locked_by × (r.completed_at ≡ none) × (r.failed_at ≡ none)
  InState outbox_completed r = IsSome r.completed_at × (r.failed_at ≡ none)
  InState outbox_failed r = IsSome r.failed_at × IsReason r.last_error
  InState (other_outbox _) r = ⊥

  pub record IsRow (r : OutboxRow P) : Type 0 where
    pub in_state : InState r.state r
    pub attempts : pos 0 ≤ℤ r.attempt_count
    pub at_least_one : pos 1 ≤ℤ r.max_attempts
    pub hundred_at_most : r.max_attempts ≤ℤ pos 100

  -- A row stays as it is, or moves along the life cycle; an attempt is counted when it is claimed.
  pub record IsMoved (r r' : OutboxRow P) : Type 0 where
    pub same_event : r'.envelope ≡ r.envelope
    pub same_limit : r'.max_attempts ≡ r.max_attempts
    pub move :
        (r' ≡ r)
        ⊎ (IsOnward r.state r'.state
            × (((r'.state ≢ outbox_processing) × (r'.attempt_count ≡ r.attempt_count))
                ⊎ ((r'.state ≡ outbox_processing) × (r'.attempt_count ≡ r.attempt_count +ℤ pos 1))))

  -- Every old row is still there and has moved so; what is new waits for its first attempt.
  abbrev pub Moves : List (OutboxRow P) → List (OutboxRow P) → Type 0
  Moves [] rs' = All (λ r. (r.state ≡ outbox_pending) × (r.attempt_count ≡ pos 0)) rs'
  Moves (r ∷ rs) (r' ∷ rs') = IsMoved r r' × Moves rs rs'
  Moves (r ∷ rs) [] = ⊥

  abbrev pub Keeps : (OutboxRow P → Bool) → (OutboxRow P → OutboxRow P) → OutboxRow P → Type 0
  Keeps test change r = IsRow r → test r ≡ true → IsRow (change r) × IsMoved r (change r)

  pub stays : (r : OutboxRow P) → IsMoved r r
  stays r = record { same_event = refl; same_limit = refl; move = inl refl }

  pub all_stay : (rs : List (OutboxRow P)) → Moves rs rs
  all_stay [] = tt
  all_stay (r ∷ rs) = (stays r, all_stay rs)

  pub update_where-Moves :
      (test : OutboxRow P → Bool) (change : OutboxRow P → OutboxRow P) (rs : List (OutboxRow P))
      → All (Keeps test change) rs
      → All IsRow rs
      → All IsRow (update_where test change rs) × Moves rs (update_where test change rs)
  unfolding update_where
  update_where-Moves test change [] k h = (tt, tt)
  update_where-Moves test change (r ∷ rs) (k, ks) (h, hs) =
      let (ih, moves) = update_where-Moves test change rs ks hs in
      elim (Bool-cases (test r)) [
        | inl hit ↦ rw hit (((k h hit).0, ih), ((k h hit).1, moves))
        | inr miss ↦ rw miss ((h, ih), (stays r, moves))
      ]

  pub everywhere :
      {Q : OutboxRow P → Type 0} (rs : List (OutboxRow P)) → ((r : OutboxRow P) → Q r) → All Q rs
  everywhere [] q = tt
  everywhere (r ∷ rs) q = (q r, everywhere rs q)

  pub completed-Keeps :
      (now : Time) (id : Text) (r : OutboxRow P) → Keeps (in_processing id) (completed now) r
  completed-Keeps now id r h hit = ground arith

  pub retried-Keeps :
      (id : Text) (at : Time) (message : Text) (r : OutboxRow P)
      → Keeps (in_processing id) (retried at message) r
  retried-Keeps id at message r h hit = ground arith

  pub failed-Keeps :
      (now : Time) (id message : Text)
      → is_blank message ≡ false
      → (r : OutboxRow P) → Keeps (in_processing id) (failed now message) r
  failed-Keeps now id message reason r h hit = ground arith

  pub released-Keeps : (cutoff : Time) (r : OutboxRow P) → Keeps (is_stale cutoff) released r
  released-Keeps cutoff r h hit = ground arith
