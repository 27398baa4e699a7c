-- ===== src/Storage/Schema.antt =====
-- The rows of the ledger's tables (migrations/*.up.sql) and the structs of
-- internal/storage/storage.go that the queries fill. The CHECK constraints on the columns `type`
-- and `status` make their texts enumerations.
use equilibra.Common.{ℕ, String, Bool, true, false, Option}
use equilibra.Common.Int.{ℤ}

pub data AccountType : Type 0 where
  user system : AccountType

pub data Status : Type 0 where
  pending completed reversed failed : Status

pub data TxType : Type 0 where
  withdrawal deposit transfer reversal : TxType

abbrev pub is_user : AccountType → Bool
is_user AccountType.user = true
is_user AccountType.system = false

abbrev pub is_completed : Status → Bool
is_completed Status.completed = true
is_completed _ = false

abbrev pub is_reversal : TxType → Bool
is_reversal TxType.reversal = true
is_reversal _ = false

abbrev pub is_transfer : TxType → Bool
is_transfer TxType.transfer = true
is_transfer _ = false

pub record Transaction : Type 0 where
  pub id : ℤ
  pub source_id : ℤ
  pub destination_id : ℤ
  pub amount : ℤ
  pub idempotency_key : String
  pub status : Status
  pub type : TxType
  pub reversal_of : Option ℤ
  pub created_at : ℕ

pub record Account : Type 0 where
  pub id : ℤ
  pub owner : String
  pub currency : String
  pub type : AccountType
  pub code : String
  pub created_at : ℕ

pub record LedgerEntry : Type 0 where
  pub id : ℤ
  pub transaction_id : ℤ
  pub amount : ℤ
  pub created_at : ℕ
  pub source_id : ℤ
  pub destination_id : ℤ
  pub type : TxType
  pub reversal_of : Option ℤ

-- A row of `accounts`: `code` may be NULL.
pub record AccountRow : Type 0 where
  pub id : ℤ
  pub owner : String
  pub currency : String
  pub type : AccountType
  pub code : Option String
  pub created_at : ℕ

-- A row of `ledger_entries`.
pub record EntryRow : Type 0 where
  pub id : ℤ
  pub transaction_id : ℤ
  pub account_id : ℤ
  pub amount : ℤ
  pub created_at : ℕ
