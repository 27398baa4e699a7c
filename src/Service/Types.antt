-- ===== src/Service/Types.antt =====
-- The structs of internal/service/service.go, `newResult` and `compareTransactions`.
use equilibra.Common.{ℕ, String, Bool, false, ◌&&◌, Option, List}
use equilibra.Common.Int.{ℤ, ◌==ℤ◌}
use equilibra.Storage.Schema.{Transaction, TxType, Status}

pub record TransferParams : Type 0 where
  pub from : ℤ
  pub to : ℤ
  pub amount : ℤ
  pub type : TxType
  pub idempotency_key : String
  pub reversal_of : Option ℤ

pub record Result : Type 0 where
  pub transaction_id : ℤ
  pub source_id : ℤ
  pub destination_id : ℤ
  pub amount : ℤ
  pub idempotency_key : String
  pub status : Status
  pub type : TxType
  pub created_at : ℕ
  pub reversal_of : Option ℤ
  pub replayed : Bool

pub record StatementEntry : Type 0 where
  pub entry_id : ℤ
  pub transaction_id : ℤ
  pub amount : ℤ
  pub counterparty_id : ℤ
  pub type : TxType
  pub created_at : ℕ
  pub reversal_of : Option ℤ

pub record Statement : Type 0 where
  pub entries : List StatementEntry
  pub next_cursor : ℤ

pub record AccountBalance : Type 0 where
  pub account_id : ℤ
  pub currency : String
  pub balance : ℤ

unfoldable pub new_result : Transaction → Result
new_result t = record {
  transaction_id = t.id;
  source_id = t.source_id;
  destination_id = t.destination_id;
  amount = t.amount;
  idempotency_key = t.idempotency_key;
  status = t.status;
  type = t.type;
  created_at = t.created_at;
  reversal_of = t.reversal_of;
  replayed = false;
}

unfoldable pub compare_transactions : Transaction → Transaction → Bool
compare_transactions curr prev =
    (curr.source_id ==ℤ prev.source_id)
    && (curr.destination_id ==ℤ prev.destination_id)
    && (curr.amount ==ℤ prev.amount)
