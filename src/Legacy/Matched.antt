-- ===== src/Legacy/Matched.antt =====
-- Each record is the record of a row of the archive, where no issue blocks.
use go_book.Base.{
  Bool, Bool-cases, List, Option, Option-cases, [], ap, arith, inl, inr, none, refl, some, sym,
  true, ℕ, ◌++◌, ◌<◌, ◌∙◌, ◌∷◌, ◌≡◌, ◌≤◌, ◌⊎◌,
}
use go_book.Base.Int.{ℤ}
use go_book.Base.Result.{Result, err, ok}
use go_book.Base.Text.{Text, trim_space}
use go_book.Legacy.Parse.{map_wager_result, parse_american_odds, parse_cents}
use go_book.Legacy.Reconcile.{insert_by, sort_by}
use go_book.Legacy.Recorded.{add_transactions-counts, add_wagers-counts, blocked, blocked-snoc}
use go_book.Legacy.Records.{
  Issue, IssueCode, LegacyTransaction, LegacyWager, Report, TransactionRecord, WagerRecord,
  add_user_issue, change_at, index_of, net_at, seen_id,
}
use go_book.Legacy.Transactions.{
  add_known, add_transactions, check_amount, check_row, count_amount, credited, record_row,
  transaction_record,
}
use go_book.Legacy.Wagers.{add_known_wager, add_wagers, check_wager, record_wager}
use mathlib.Core.List.{Perm, append-nil, append_assoc}
use mathlib.Core.List.Perm

-- Each record is of the row at its place.
abbrev pub AllOf : {A B : Type 0} → (A → B → Type 0) → List A → List B → Type 0
AllOf rule [] [] = Unit
AllOf rule (a ∷ rows) (b ∷ bs) = rule a b × AllOf rule rows bs
AllOf rule _ _ = ⊥

insert_by-perm {ℓ} :
    {A : Type ℓ} (before : A → A → Bool) (a : A) (bs : List A)
    → Perm (insert_by before a bs) (a ∷ bs)
unfolding insert_by
insert_by-perm before a [] = Perm.rfl
insert_by-perm before a (b ∷ bs) = elim (Bool-cases (before b a)) [
  | inl smaller ↦
      rw smaller (Perm.trans (Perm.cons b (insert_by-perm before a bs)) (Perm.swap a b bs))
  | inr first ↦ rw first Perm.rfl
]

pub sort_by-perm {ℓ} :
    {A : Type ℓ} (before : A → A → Bool) (rest : List A) → Perm (sort_by before rest) rest
unfolding sort_by
sort_by-perm before [] = Perm.rfl
sort_by-perm before (a ∷ rest) =
    Perm.trans (insert_by-perm before a (sort_by before rest))
      (Perm.cons a (sort_by-perm before rest))

-- There are more issues that block, or one record more, of the row.
abbrev HasRecord : {B : Type 0} → ℕ → ℕ → List B → List B → (B → Type 0) → Type 0
HasRecord {B} old new had has_now rule =
    (old < new) ⊎ ((made : B) × (has_now ≡ had ++ made ∷ []) × rule made)

-- There are more issues that block, or the records of the rows.
abbrev pub HasRecords :
    {A B : Type 0} → ℕ → ℕ → List B → List B → (A → B → Type 0) → List A → Type 0
HasRecords {A} {B} old new had has_now rule rows =
    (old < new) ⊎ ((more : List B) × (has_now ≡ had ++ more) × AllOf rule rows more)

then_more :
    {A B : Type 0} (rule : A → B → Type 0) (a : A) (rows : List A) (old mid new : ℕ)
    (had between has_now : List B)
    → old ≤ mid
    → mid ≤ new
    → HasRecord old mid had between (rule a)
    → HasRecords mid new between has_now rule rows
    → HasRecords old new had has_now rule (a ∷ rows)
then_more rule a rows old mid new had between has_now h k (inl one) rest = inl (omega (arith, one))
then_more rule a rows old mid new had between has_now h k (inr one) (inl more) =
    inl (omega (arith, more))
then_more rule a rows old mid new had between has_now h k (inr (made, e, r)) (inr (more, f, all)) =
    inr (
      made ∷ more,
      f ∙ ap (λ (bs : List _). bs ++ more) e ∙ append_assoc had (made ∷ []) more,
      (r, all),
    )

module _ (to_lower : Text → Text) where
  -- The record of a transaction: of the same user, with the amount that was read.
  pub record IsRecordOf (t : LegacyTransaction) (made : TransactionRecord) : Type 0 where
    pub source_is : made.source_id ≡ t.id
    pub user_is : made.user_id ≡ t.user_id
    pub amount_is : parse_cents t.amount ≡ some made.amount
    pub kind_is : made.kind ≡ to_lower (trim_space t.kind)
    pub description_is : made.description ≡ t.description
    pub time_is : made.occurred_at ≡ t.occurred_at

  pub record IsRecordOfWager (w : LegacyWager) (made : WagerRecord) : Type 0 where
    pub source_is : made.source_id ≡ w.id
    pub user_is : made.user_id ≡ w.user_id
    pub stake_is : parse_cents w.amount ≡ some made.stake
    pub terms_are : made.accepted_terms ≡ trim_space w.description
    pub odds_are : parse_american_odds w.odds ≡ some made.accepted_odds
    pub time_is : made.placed_at ≡ w.placed_at
    pub result_is : map_wager_result to_lower w.result ≡ some made.result
    pub approval_is : made.approved ≡ w.approved

  abbrev HasRow : LegacyTransaction → Report → Report → Type 0
  HasRow t r r' =
      HasRecord (blocked r.issues) (blocked r'.issues) r.transactions r'.transactions (IsRecordOf t)

  abbrev HasWager : LegacyWager → Report → Report → Type 0
  HasWager w r r' =
      HasRecord (blocked r.issues) (blocked r'.issues) r.wagers r'.wagers (IsRecordOfWager w)

  one_blocks :
      (is : List Issue) (i : Issue) → i.is_blocking ≡ true → blocked is < blocked (is ++ i ∷ [])
  one_blocks is i h = ground (arith, blocked-snoc is i)

  check_amount-read :
      (t : LegacyTransaction) (net amount : ℤ)
      → check_amount to_lower t net ≡ ok amount
      → parse_cents t.amount ≡ some amount
  unfolding check_amount
  check_amount-read t net amount h = elim (Option-cases (parse_cents t.amount)) [
    | inl f ↦ ground arith
    | inr (read, f) ↦ ground arith
  ]

  record_row-HasRow :
      (t : LegacyTransaction) (i : ℕ) (amount : ℤ) (m : Result IssueCode (Unit {0})) (r : Report)
      → parse_cents t.amount ≡ some amount
      → HasRow t r (record_row to_lower t i amount m r)
  unfolding record_row add_user_issue
  record_row-HasRow t i amount (err code) r e = inl (one_blocks r.issues _ refl)
  record_row-HasRow t i amount (ok _) r e = inr (
    transaction_record to_lower t amount,
    refl,
    record {
      source_is = refl;
      user_is = refl;
      amount_is = e;
      kind_is = refl;
      description_is = refl;
      time_is = refl;
    },
  )

  count_amount-HasRow :
      (t : LegacyTransaction) (i : ℕ) (net : ℤ) (m : Result IssueCode ℤ) (r : Report)
      → check_amount to_lower t net ≡ m
      → HasRow t r (count_amount to_lower t i m r)
  unfolding count_amount add_user_issue
  count_amount-HasRow t i net (err code) r e = inl (one_blocks r.issues _ refl)
  count_amount-HasRow t i net (ok amount) r e =
      record_row-HasRow t i amount (check_row to_lower t)
        (record r { users = change_at i (credited to_lower amount) r.users })
        (check_amount-read t net amount e)

  add_known-HasRow :
      (t : LegacyTransaction) (o : Option ℕ) (s : Report × List ℤ)
      → HasRow t s.0 (add_known to_lower t o s).0
  unfolding add_known add_user_issue
  add_known-HasRow t none (r, ids) = inl (one_blocks r.issues _ refl)
  add_known-HasRow t (some i) (r, ids) = elim (Bool-cases (seen_id t.id ids)) [
    | inl twice ↦ rw twice (inl (one_blocks r.issues _ refl))
    | inr new ↦ rw new (
        count_amount-HasRow t i (net_at i r.users) (check_amount to_lower t (net_at i r.users)) r
          refl)
  ]

  abbrev HasRows : List LegacyTransaction → Report → Report → Type 0
  HasRows ts r r' =
      HasRecords (blocked r.issues) (blocked r'.issues) r.transactions r'.transactions IsRecordOf ts

  pub add_transactions-HasRows :
      (ts : List LegacyTransaction) (s : Report × List ℤ)
      → HasRows ts s.0 (add_transactions to_lower ts s).0
  unfolding add_transactions
  add_transactions-HasRows [] s = inr ([], sym (append-nil _), tt)
  add_transactions-HasRows (t ∷ ts) s =
      let next = add_known to_lower t (index_of t.user_id s.0.users) s in
      let (_, _, first) = add_transactions-counts to_lower (t ∷ []) s in
      let (_, _, rest) = add_transactions-counts to_lower ts next in
      then_more IsRecordOf t ts _ _ _ _ _ _ first rest
        (add_known-HasRow t (index_of t.user_id s.0.users) s) (add_transactions-HasRows ts next)

  check_wager-IsRecordOfWager :
      (w : LegacyWager) (made : WagerRecord)
      → check_wager to_lower w ≡ ok made
      → IsRecordOfWager w made
  unfolding check_wager
  check_wager-IsRecordOfWager w made h = elim (Option-cases (parse_cents w.amount)) [
    | inl f ↦ ground arith
    | inr (stake, f) ↦ elim (Option-cases (parse_american_odds w.odds)) [
      | inl g ↦ ground arith
      | inr (odds, g) ↦ elim (Option-cases (map_wager_result to_lower w.result)) [
        | inl k ↦ ground arith
        | inr (result, k) ↦ record {
          source_is = ground arith;
          user_is = ground arith;
          stake_is = ground arith;
          terms_are = ground arith;
          odds_are = ground arith;
          time_is = ground arith;
          result_is = ground arith;
          approval_is = ground arith;
        }
      ]
    ]
  ]

  record_wager-HasWager :
      (w : LegacyWager) (i : ℕ) (m : Result IssueCode WagerRecord) (r : Report)
      → check_wager to_lower w ≡ m
      → HasWager w r (record_wager to_lower w i m r)
  unfolding record_wager add_user_issue
  record_wager-HasWager w i (err code) r e = inl (one_blocks r.issues _ refl)
  record_wager-HasWager w i (ok made) r e = inr (made, refl, check_wager-IsRecordOfWager w made e)

  add_known_wager-HasWager :
      (w : LegacyWager) (o : Option ℕ) (s : Report × List ℤ)
      → HasWager w s.0 (add_known_wager to_lower w o s).0
  unfolding add_known_wager add_user_issue
  add_known_wager-HasWager w none (r, ids) = inl (one_blocks r.issues _ refl)
  add_known_wager-HasWager w (some i) (r, ids) = elim (Bool-cases (seen_id w.id ids)) [
    | inl twice ↦ rw twice (inl (one_blocks r.issues _ refl))
    | inr new ↦ rw new (record_wager-HasWager w i (check_wager to_lower w) r refl)
  ]

  abbrev HasWagers : List LegacyWager → Report → Report → Type 0
  HasWagers ws r r' =
      HasRecords (blocked r.issues) (blocked r'.issues) r.wagers r'.wagers IsRecordOfWager ws

  pub add_wagers-HasWagers :
      (ws : List LegacyWager) (s : Report × List ℤ) → HasWagers ws s.0 (add_wagers to_lower ws s).0
  unfolding add_wagers
  add_wagers-HasWagers [] s = inr ([], sym (append-nil _), tt)
  add_wagers-HasWagers (w ∷ ws) s =
      let next = add_known_wager to_lower w (index_of w.user_id s.0.users) s in
      let (_, _, first) = add_wagers-counts to_lower (w ∷ []) s in
      let (_, _, rest) = add_wagers-counts to_lower ws next in
      then_more IsRecordOfWager w ws _ _ _ _ _ _ first rest
        (add_known_wager-HasWager w (index_of w.user_id s.0.users) s) (add_wagers-HasWagers ws next)
