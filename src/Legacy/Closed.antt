-- ===== src/Legacy/Closed.antt =====
-- The last steps of the reconciliation neither lose a row nor add an issue that blocks.
use go_book.Base.{Bool, List, [], ap, arith, if◌then◌else◌, length, refl, true, ◌+◌, ◌∙◌, ◌∷◌, ◌≡◌}
use go_book.Legacy.Reconcile.{close_report, close_users, difference_issue, insert_by, sort_by}
use go_book.Legacy.Recorded.{blocked, blocked-snoc}
use go_book.Legacy.Records.{Issue, Report, UserReconciliation, no_blocking}

length-insert_by {ℓ} :
    {A : Type ℓ} (before : A → A → Bool) (a : A) (bs : List A)
    → length (insert_by before a bs) ≡ length bs + 1
unfolding insert_by
length-insert_by before a [] = omega arith
length-insert_by before a (b ∷ bs) = ground (arith, length-insert_by before a bs)

pub length-sort_by {ℓ} :
    {A : Type ℓ} (before : A → A → Bool) (xs : List A) → length (sort_by before xs) ≡ length xs
unfolding sort_by
length-sort_by before [] = refl
length-sort_by before (a ∷ rest) =
    omega (arith, length-insert_by before a (sort_by before rest), length-sort_by before rest)

blocked-insert_by :
    (before : Issue → Issue → Bool) (i : Issue) (is : List Issue)
    → blocked (insert_by before i is) ≡ (if i.is_blocking then 1 else 0) + blocked is
unfolding insert_by blocked
blocked-insert_by before i [] = refl
blocked-insert_by before i (j ∷ js) = ground (arith, blocked-insert_by before i js)

blocked-sort_by :
    (before : Issue → Issue → Bool) (is : List Issue) → blocked (sort_by before is) ≡ blocked is
unfolding sort_by blocked
blocked-sort_by before [] = refl
blocked-sort_by before (i ∷ is) =
    omega (arith, blocked-insert_by before i (sort_by before is), blocked-sort_by before is)

pub blocked-none : (is : List Issue) → no_blocking is ≡ true → blocked is ≡ 0
unfolding no_blocking blocked
blocked-none [] h = refl
blocked-none (i ∷ is) h = ground (arith, h, blocked-none is)

-- The last loop adds no issue that blocks and no row.
close_users-keeps :
    (us : List UserReconciliation) (r : Report)
    → let new = close_users us r in
      (blocked new.issues ≡ blocked r.issues)
      × (new.transactions ≡ r.transactions)
      × (new.wagers ≡ r.wagers)
unfolding close_users
close_users-keeps [] r = (refl, refl, refl)
close_users-keeps (u ∷ us) r =
    let rest = close_users-keeps us _ in
    (ground (arith, rest.0, blocked-snoc r.issues (difference_issue u)), rest.1, rest.2)

pub close_report-keeps :
    (r : Report)
    → (blocked (close_report r).issues ≡ blocked r.issues)
      × ((close_report r).transactions ≡ r.transactions)
      × ((close_report r).wagers ≡ r.wagers)
unfolding close_report
close_report-keeps r =
    let kept = close_users-keeps r.users (record r { users = [] }) in
    (blocked-sort_by _ _ ∙ kept.0, kept.1, kept.2)

pub lengths :
    (r : Report)
    → (length (close_report r).transactions ≡ length r.transactions)
      × (length (close_report r).wagers ≡ length r.wagers)
lengths r = let closed = close_report-keeps r in (ap length closed.1, ap length closed.2)
