-- ===== src/Storage/Querier/History.antt =====
-- `GetAccountHistory` of internal/storage/querier.go.
use equilibra.Common.{
  Bool, ◌&&◌, Option, none, some, List, [], ◌∷◌, take, select, order_by, if◌then◌else◌,
}
use equilibra.Common.Int.{ℤ, pos, negsuc, ltb_ℤ, leb_ℤ, ◌==ℤ◌, max_int64}
use equilibra.Errors.{Outcome, ok, err, constraint}
use equilibra.Storage.Schema.{Transaction, EntryRow, LedgerEntry}
use equilibra.Storage.Session.{Db, Exec, statement}
use equilibra.Storage.Querier.{transaction_with_id}

-- One row of the join, in the columns that are scanned.
abbrev pub scan_entry : EntryRow → Transaction → LedgerEntry
scan_entry e t = record {
  id = e.id;
  transaction_id = t.id;
  amount = e.amount;
  created_at = e.created_at;
  source_id = t.source_id;
  destination_id = t.destination_id;
  type = t.type;
  reversal_of = t.reversal_of;
}

abbrev pub join_row : EntryRow → Option Transaction → List LedgerEntry → List LedgerEntry
join_row e none rest = rest
join_row e (some t) rest = scan_entry e t ∷ rest

-- `JOIN transactions t ON l.transaction_id = t.id`
unfoldable pub join_transactions : List Transaction → List EntryRow → List LedgerEntry
join_transactions ts [] = []
join_transactions ts (e ∷ es) =
    join_row e (transaction_with_id e.transaction_id ts) (join_transactions ts es)

-- `ORDER BY l.id DESC`
abbrev pub newer : LedgerEntry → LedgerEntry → Bool
newer a b = leb_ℤ b.id a.id

-- `WHERE l.account_id = $1 AND l.id < $2`
abbrev pub of_account_before : ℤ → ℤ → EntryRow → Bool
of_account_before account before e = (e.account_id ==ℤ account) && ltb_ℤ e.id before

unfoldable pub history_rows : ℤ → ℤ → Db → List LedgerEntry
history_rows account before db =
    order_by newer
      (join_transactions db.transactions (select (of_account_before account before) db.entries))

-- A negative LIMIT is an error.
abbrev limit_rows : ℤ → List LedgerEntry → Outcome (List LedgerEntry)
limit_rows (pos n) rows = ok (take n rows)
limit_rows (negsuc n) rows = err constraint

unfoldable pub get_account_history : ℤ → ℤ → ℤ → Exec (List LedgerEntry)
get_account_history account limit before =
    let bound = if before ==ℤ pos 0 then max_int64 else before in
    statement λ s. (limit_rows limit (history_rows account bound s.db), s)
