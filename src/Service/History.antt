-- ===== src/Service/History.antt =====
-- `AccountTransactionsHistory` of internal/service/service.go.
pub mod Rows
pub mod Page
use equilibra.Common.{List, [], ◌∷◌, map, length, if◌then◌else◌}
use equilibra.Common.Int.{ℤ, pos, ltb_ℤ, leb_ℤ}
use equilibra.Errors.{Outcome, ok, err, account_not_found}
use equilibra.Storage.Schema.{LedgerEntry}
use equilibra.Storage.Session.{Exec, or_not_found, ◌>>◌}
use equilibra.Storage.Querier.{get_account}
use equilibra.Storage.Querier.History.{get_account_history}
use equilibra.Storage.WithTx.{World, Conditions, with_tx}
use equilibra.Service.Types.{Statement, StatementEntry}

abbrev pub max_limit : ℤ
max_limit = pos 999

abbrev pub default_limit : ℤ
default_limit = pos 10

-- The two tests on `limit`, in their order.
unfoldable pub clamp_limit : ℤ → ℤ
clamp_limit limit =
    let given = if leb_ℤ limit (pos 0) then default_limit else limit in
    if ltb_ℤ max_limit given then max_limit else given

-- The id of the last entry; `prev` where there is none.
unfoldable pub last_id : ℤ → List LedgerEntry → ℤ
last_id prev [] = prev
last_id prev (e ∷ es) = last_id e.id es

unfoldable pub next_cursor : ℤ → List LedgerEntry → ℤ
unfolding last_id
next_cursor limit entries =
    if ltb_ℤ (pos (length entries)) limit then pos 0 else last_id (pos 0) entries

unfoldable pub statement_entry : LedgerEntry → StatementEntry
statement_entry e = record {
  entry_id = e.id;
  transaction_id = e.transaction_id;
  amount = e.amount;
  counterparty_id = if ltb_ℤ (pos 0) e.amount then e.source_id else e.destination_id;
  type = e.type;
  created_at = e.created_at;
  reversal_of = e.reversal_of;
}

unfoldable pub history_body : ℤ → ℤ → ℤ → Exec (List LedgerEntry)
history_body account limit before = do
  or_not_found (get_account account) account_not_found
  get_account_history account limit before

abbrev pub statement_of : ℤ → Outcome (List LedgerEntry) × World → Outcome Statement × World
statement_of limit (ok rows, w) =
    (ok (record { entries = map statement_entry rows; next_cursor = next_cursor limit rows }), w)
statement_of limit (err e, w) = (err e, w)

unfoldable pub account_transactions_history :
    Conditions → ℤ → ℤ → ℤ → World → Outcome Statement × World
unfolding history_body clamp_limit
account_transactions_history c account limit before w =
    statement_of (clamp_limit limit) (with_tx c (history_body account (clamp_limit limit) before) w)
