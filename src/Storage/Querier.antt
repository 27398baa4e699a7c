-- ===== src/Storage/Querier.antt =====
-- internal/storage/querier.go: each query, by the meaning of its SQL text on the tables with the
-- constraints of migrations/*.up.sql.
pub mod Inversion
pub mod Calm
pub mod Locks
pub mod History
pub mod Outbox
use equilibra.Common.{
  ℕ, ◌+◌, String, Bool, true, false, ◌&&◌, ◌||◌, not, Option, none, some, List, [], ◌∷◌, ◌++◌, map,
  find, exists, str_eq, if◌then◌else◌,
}
use equilibra.Common.Int.{ℤ, pos, ◌+ℤ◌, leb_ℤ, ◌==ℤ◌, in_int64}
use equilibra.Errors.{Outcome, ok, err, not_found, duplicate_key, constraint, driver}
use equilibra.Events.{EntryPosted, marshal}
use equilibra.Storage.Schema.{AccountRow, Account, Transaction, EntryRow, Status, is_completed}
use equilibra.Storage.Session.{Db, OutboxRow, Session, Lock, Exec, statement}

-- `COALESCE(code, '')`
abbrev coalesce : Option String → String
coalesce none = ""
coalesce (some c) = c

-- `Scan(&account.ID, …)`
abbrev pub scan_account : AccountRow → Account
scan_account r = record {
  id = r.id;
  owner = r.owner;
  currency = r.currency;
  type = r.type;
  code = coalesce r.code;
  created_at = r.created_at;
}

unfoldable pub account_with : ℤ → List AccountRow → Option AccountRow
account_with id = find (λ r. r.id ==ℤ id)

unfoldable pub transaction_with_id : ℤ → List Transaction → Option Transaction
transaction_with_id id = find (λ t. t.id ==ℤ id)

unfoldable pub transaction_with_key : String → List Transaction → Option Transaction
transaction_with_key k = find (λ t. str_eq t.idempotency_key k)

-- `code = $1` is not true of NULL.
abbrev has_code : String → Option String → Bool
has_code c none = false
has_code c (some d) = str_eq d c

unfoldable pub account_with_code : String → List AccountRow → Option AccountRow
account_with_code code = find (λ r. has_code code r.code)

-- `pgx.ErrNoRows` becomes `ErrNotFound`.
abbrev pub row_or_not_found : {A B : Type 0} → (A → B) → Option A → Outcome B
row_or_not_found f none = err not_found
row_or_not_found f (some a) = ok (f a)

-- `FOR UPDATE` locks the row that it finds.
abbrev lock_row : {A : Type 0} → Lock → Option A → Session → Session
lock_row l none s = s
lock_row l (some _) s = record s { locked = s.locked ++ l ∷ [] }

unfoldable pub get_account_for_update : ℤ → Exec Account
get_account_for_update id = statement λ s.
    let row = account_with id s.db.accounts in
    (row_or_not_found scan_account row, lock_row (Lock.account id) row s)

unfoldable pub get_account : ℤ → Exec Account
get_account id = statement λ s. (row_or_not_found scan_account (account_with id s.db.accounts), s)

unfoldable pub get_system_account_by_code : String → Exec Account
get_system_account_by_code code =
    statement λ s. (row_or_not_found scan_account (account_with_code code s.db.accounts), s)

-- `COALESCE(SUM(amount), 0)` over the entries of one account.
unfoldable pub balance : ℤ → List EntryRow → ℤ
balance id [] = pos 0
balance id (e ∷ es) = if e.account_id ==ℤ id then e.amount +ℤ balance id es else balance id es

-- The sum is a NUMERIC: one that is no int64 fails to scan.
unfoldable pub get_account_balance : ℤ → Exec ℤ
get_account_balance id =
    statement λ s.
      let total = balance id s.db.entries in (if in_int64 total then ok total else err driver, s)

-- The unique index on `reversal_of`, which leaves NULL alone.
unfoldable pub is_reversed : Option ℤ → List Transaction → Bool
is_reversed none ts = false
is_reversed (some id) ts = exists (λ t. elim t.reversal_of [ none ↦ false | some j ↦ j ==ℤ id ]) ts

unfoldable pub has_account : ℤ → Db → Bool
has_account id db = exists (λ r. r.id ==ℤ id) db.accounts

unfoldable pub has_transaction : ℤ → Db → Bool
has_transaction id db = exists (λ t. t.id ==ℤ id) db.transactions

abbrev reverses_known : Option ℤ → Db → Bool
reverses_known none db = true
reverses_known (some id) db = has_transaction id db

-- `REFERENCES accounts(id)` twice, and `REFERENCES transactions(id)`.
unfoldable pub references_hold : Transaction → Db → Bool
unfolding has_account has_transaction
references_hold t db =
    has_account t.source_id db && has_account t.destination_id db && reverses_known t.reversal_of db

-- `created` of `CreateTransaction`.
abbrev pub created_from : Transaction → ℕ → ℕ → Transaction
created_from t id now = record t { id = pos id; status = Status.completed; created_at = now }

-- The `INSERT` after the sequence has given `id`: the CHECK on the amount, then the conflict on the
-- key, then the unique index, the primary key and the foreign keys.
abbrev insert_transaction : Transaction → ℕ → Exec Transaction
insert_transaction t id s =
    let row = created_from t id s.now in
    if leb_ℤ t.amount (pos 0)
    then (err constraint, s)
    else elim (transaction_with_key t.idempotency_key s.db.transactions) [
      | some _ ↦ (err duplicate_key, s)
      | none ↦
          if is_reversed t.reversal_of s.db.transactions || has_transaction (pos id) s.db
          then (err constraint, s)
          else if not (references_hold t s.db)
          then (err constraint, s)
          else (
            ok row,
            record s { db = record s.db { transactions = s.db.transactions ++ row ∷ [] } },
          )
    ]

unfoldable pub create_transaction : Transaction → Exec Transaction
create_transaction t = statement λ s.
    let id = s.sequences.transactions in
    insert_transaction t id (record s { sequences = record s.sequences { transactions = id + 1 } })

unfoldable pub get_transaction : String → Exec Transaction
get_transaction k =
    statement λ s. (row_or_not_found (λ t. t) (transaction_with_key k s.db.transactions), s)

unfoldable pub get_transaction_by_id : ℤ → Exec Transaction
get_transaction_by_id id = statement λ s.
    let row = transaction_with_id id s.db.transactions in
    (row_or_not_found (λ t. t) row, lock_row (Lock.transaction id) row s)

-- `UPDATE … SET status = $1 WHERE id = $2 AND status = 'completed'`
abbrev pub set_status_row : ℤ → Status → Transaction → Transaction
set_status_row id status t =
    if (t.id ==ℤ id) && is_completed t.status then record t { status = status } else t

unfoldable pub set_status : ℤ → Status → List Transaction → List Transaction
set_status id status = map (set_status_row id status)

unfoldable pub updates_some : ℤ → List Transaction → Bool
updates_some id = exists (λ t. (t.id ==ℤ id) && is_completed t.status)

-- No row affected is `ErrNotFound`; so is a statement that failed, since its tag counts no row.
abbrev rows_or_not_found : Outcome Bool × Session → Outcome (Unit {0}) × Session
rows_or_not_found (ok true, s) = (ok tt, s)
rows_or_not_found (ok false, s) = (err not_found, s)
rows_or_not_found (err _, s) = (err not_found, s)

unfoldable pub update_transaction_status : ℤ → Status → Exec (Unit {0})
update_transaction_status id status s = rows_or_not_found (
    statement
      (λ u. (
        ok (updates_some id u.db.transactions),
        record u { db = record u.db { transactions = set_status id status u.db.transactions } },
      ))
      s)

abbrev pub entry_row : ℕ → ℤ → ℤ → ℤ → ℕ → EntryRow
entry_row id transaction account amount now = record {
  id = pos id;
  transaction_id = transaction;
  account_id = account;
  amount = amount;
  created_at = now;
}

abbrev insert_entry : EntryRow → Exec (Unit {0})
insert_entry row s =
    if has_transaction row.transaction_id s.db
      && has_account row.account_id s.db
      && not (exists (λ e. e.id ==ℤ row.id) s.db.entries)
    then (ok tt, record s { db = record s.db { entries = s.db.entries ++ row ∷ [] } })
    else (err constraint, s)

unfoldable pub create_ledger_entry : ℤ → ℤ → ℤ → Exec (Unit {0})
create_ledger_entry transaction account amount = statement λ s.
    let id = s.sequences.entries in
    insert_entry (entry_row id transaction account amount s.now)
      (record s { sequences = record s.sequences { entries = id + 1 } })

abbrev pub outbox_row : ℕ → String → String → List ℕ → EntryPosted → ℕ → OutboxRow
outbox_row id uuid kind k payload now = record {
  id = pos id;
  event_id = uuid;
  event_type = kind;
  partition_key = k;
  payload = marshal payload;
  created_at = now;
  published_at = none;
}

-- The primary key, and the UNIQUE constraint on `event_id`.
abbrev insert_outbox : OutboxRow → Exec (Unit {0})
insert_outbox row s =
    if exists (λ o. (o.id ==ℤ row.id) || str_eq o.event_id row.event_id) s.db.outbox
    then (err constraint, s)
    else (ok tt, record s { db = record s.db { outbox = s.db.outbox ++ row ∷ [] } })

unfoldable pub create_outbox_event : String → List ℕ → EntryPosted → Exec (Unit {0})
create_outbox_event kind k payload = statement λ s.
    let id = s.sequences.outbox in
    insert_outbox (outbox_row id (s.uuid id) kind k payload s.now)
      (record s { sequences = record s.sequences { outbox = id + 1 } })
