-- ===== src/Service/History/Rows.antt =====
-- The rows that the query of a history page reads: their order and their bound.
use equilibra.Common.{
  ℕ, zero, suc, ◌≤◌, inl, inr, List, [], ◌∷◌, length, take, select, order_by, insert_by, All,
  All-take, All-insert_by, All-order_by, Option, none, some, Bool-cases, arith,
}
use equilibra.Common.Int.{ℤ, ◌<ℤ◌, ◌≤ℤ◌}
use equilibra.Storage.Schema.{EntryRow, Transaction, LedgerEntry}
use equilibra.Storage.Session.{Db}
use equilibra.Storage.Querier.{transaction_with_id}
use equilibra.Storage.Querier.History.{
  join_row, newer, join_transactions, history_rows, of_account_before,
}
use equilibra.Service.History.{last_id}

-- Newest first: no entry's id is larger than that of one before it.
abbrev pub Descending : List LedgerEntry → Type 0
Descending [] = Unit
Descending (x ∷ xs) = All (λ (y : LedgerEntry). y.id ≤ℤ x.id) xs × Descending xs

pub Descending-take : (n : ℕ) (xs : List LedgerEntry) → Descending xs → Descending (take n xs)
Descending-take zero xs h = tt
Descending-take (suc n) [] h = tt
Descending-take (suc n) (x ∷ xs) h = (All-take _ n xs h.0, Descending-take n xs h.1)

weaken :
    (a b : ℤ) (xs : List LedgerEntry)
    → a ≤ℤ b
    → All (λ (y : LedgerEntry). y.id ≤ℤ a) xs
    → All (λ (y : LedgerEntry). y.id ≤ℤ b) xs
weaken a b [] le h = tt
weaken a b (x ∷ xs) le h = (omega (arith, le, h.0), weaken a b xs le h.1)

Descending-insert_by :
    (x : LedgerEntry) (xs : List LedgerEntry) → Descending xs → Descending (insert_by newer x xs)
unfolding insert_by
Descending-insert_by x [] h = (tt, tt)
Descending-insert_by x (y ∷ ys) h = elim (Bool-cases (newer x y)) [
  | inl before ↦
      let le : y.id ≤ℤ x.id = ground arith in rw before ((le, weaken y.id x.id ys le h.0), h)
  | inr after ↦
      let le : x.id ≤ℤ y.id = ground arith in
      rw after (All-insert_by _ newer x ys le h.0, Descending-insert_by x ys h.1)
]

Descending-order_by : (xs : List LedgerEntry) → Descending (order_by newer xs)
unfolding order_by
Descending-order_by [] = tt
Descending-order_by (x ∷ xs) = Descending-insert_by x (order_by newer xs) (Descending-order_by xs)

-- The last id is at most every id.
pub last_id-lowest :
    (x : LedgerEntry) (es : List LedgerEntry)
    → Descending (x ∷ es)
    → (last_id x.id es ≤ℤ x.id) × All (λ (y : LedgerEntry). last_id x.id es ≤ℤ y.id) es
unfolding last_id
last_id-lowest x [] h = (omega arith, tt)
last_id-lowest x (y ∷ ys) h =
    let (le, rest) = last_id-lowest y ys h.1 in (omega (arith, le, h.0.0), (le, rest))

pub length-take_le : (n : ℕ) (xs : List LedgerEntry) → length (take n xs) ≤ n
length-take_le zero xs = omega arith
length-take_le (suc n) [] = omega arith
length-take_le (suc n) (x ∷ xs) = omega (arith, length-take_le n xs)

select-below :
    (account b : ℤ) (es : List EntryRow)
    → All (λ (e : EntryRow). e.id <ℤ b) (select (of_account_before account b) es)
unfolding select
select-below account b [] = tt
select-below account b (e ∷ es) = elim (Bool-cases (of_account_before account b e)) [
  | inl passes ↦ let lt : e.id <ℤ b = ground arith in rw passes (lt, select-below account b es)
  | inr fails ↦ rw fails (select-below account b es)
]

join_row-below :
    (b : ℤ) (e : EntryRow) (o : Option Transaction) (rest : List LedgerEntry)
    → e.id <ℤ b
    → All (λ (y : LedgerEntry). y.id <ℤ b) rest
    → All (λ (y : LedgerEntry). y.id <ℤ b) (join_row e o rest)
join_row-below b e none rest lt h = h
join_row-below b e (some t) rest lt h = (lt, h)

join-below :
    (b : ℤ) (ts : List Transaction) (es : List EntryRow)
    → All (λ (e : EntryRow). e.id <ℤ b) es
    → All (λ (y : LedgerEntry). y.id <ℤ b) (join_transactions ts es)
unfolding join_transactions
join-below b ts [] h = tt
join-below b ts (e ∷ es) h =
    join_row-below b e (transaction_with_id e.transaction_id ts) (join_transactions ts es) h.0
      (join-below b ts es h.1)

pub history_rows-below :
    (account b : ℤ) (d : Db) → All (λ (y : LedgerEntry). y.id <ℤ b) (history_rows account b d)
unfolding history_rows
history_rows-below account b d =
    All-order_by _ newer _ (join-below b d.transactions _ (select-below account b d.entries))

pub history_rows-Descending : (account b : ℤ) (d : Db) → Descending (history_rows account b d)
unfolding history_rows
history_rows-Descending account b d = Descending-order_by _
