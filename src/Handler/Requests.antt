-- ===== src/Handler/Requests.antt =====
-- internal/handler/requests.go: the bodies of requests and responses, and the checks on them.
use equilibra.Common.{String, ◌||◌, not, List, map, Option, str_eq, ℕ}
use equilibra.Common.Int.{ℤ, pos, ltb_ℤ, ◌==ℤ◌}
use equilibra.Storage.Schema.{TxType, Status}
use equilibra.Service.Types.{Result, AccountBalance, Statement, StatementEntry}
use equilibra.Handler.Validator.{Validator, check}

pub record TransferRequest : Type 0 where
  pub from_account_id : ℤ
  pub to_account_id : ℤ
  pub amount : ℤ

pub record DepositRequest : Type 0 where
  pub account_id : ℤ
  pub amount : ℤ
  pub source : String

pub record WithdrawRequest : Type 0 where
  pub account_id : ℤ
  pub amount : ℤ
  pub destination : String

pub record TransactionResponse : Type 0 where
  pub transaction_id : ℤ
  pub source_id : ℤ
  pub destination_id : ℤ
  pub amount : ℤ
  pub status : Status
  pub type : TxType
  pub reversal_of : Option ℤ
  pub created_at : ℕ

pub record AccountBalanceResponse : Type 0 where
  pub account_id : ℤ
  pub currency : String
  pub balance : ℤ

pub record StatementEntryResponse : Type 0 where
  pub entry_id : ℤ
  pub transaction_id : ℤ
  pub amount : ℤ
  pub counterparty_id : ℤ
  pub type : TxType
  pub reversal_of : Option ℤ
  pub created_at : ℕ

pub record AccountHistoryResponse : Type 0 where
  pub transactions : List StatementEntryResponse
  pub next_cursor : ℤ

unfoldable pub new_response : Result → TransactionResponse
new_response r = record {
  transaction_id = r.transaction_id;
  source_id = r.source_id;
  destination_id = r.destination_id;
  amount = r.amount;
  status = r.status;
  type = r.type;
  reversal_of = r.reversal_of;
  created_at = r.created_at;
}

unfoldable pub new_balance_response : AccountBalance → AccountBalanceResponse
new_balance_response b = record {
  account_id = b.account_id;
  currency = b.currency;
  balance = b.balance;
}

-- `e.Type != service.TxTypeTransfer` leaves zero.
abbrev shown_counterparty : TxType → ℤ → ℤ
shown_counterparty TxType.transfer id = id
shown_counterparty t id = pos 0

abbrev pub entry_response : StatementEntry → StatementEntryResponse
entry_response e = record {
  entry_id = e.entry_id;
  transaction_id = e.transaction_id;
  amount = e.amount;
  counterparty_id = shown_counterparty e.type e.counterparty_id;
  type = e.type;
  reversal_of = e.reversal_of;
  created_at = e.created_at;
}

unfoldable pub new_account_history_response : Statement → AccountHistoryResponse
new_account_history_response s = record {
  transactions = map entry_response s.entries;
  next_cursor = s.next_cursor;
}

unfoldable pub validate_transfer : TransferRequest → Validator → Validator
validate_transfer r v =
    let v1 = check (ltb_ℤ (pos 0) r.from_account_id) "from_account_id" "must be provided" v in
    let v2 = check (ltb_ℤ (pos 0) r.to_account_id) "to_account_id" "must be provided" v1 in
    let v3 =
      check (not (r.from_account_id ==ℤ r.to_account_id)) "to_account_id"
        "account id's must be distinct" v2 in
    check (ltb_ℤ (pos 0) r.amount) "amount" "must be greater than zero" v3

unfoldable pub validate_deposit : DepositRequest → Validator → Validator
validate_deposit r v =
    let v1 = check (ltb_ℤ (pos 0) r.account_id) "account_id" "must be provided" v in
    let v2 = check (ltb_ℤ (pos 0) r.amount) "amount" "must be greater than zero" v1 in
    check (str_eq r.source "ATM" || str_eq r.source "BANK") "source" "must be ATM or BANK" v2

unfoldable pub validate_withdraw : WithdrawRequest → Validator → Validator
validate_withdraw r v =
    let v1 = check (ltb_ℤ (pos 0) r.account_id) "account_id" "must be provided" v in
    let v2 = check (ltb_ℤ (pos 0) r.amount) "amount" "must be greater than zero" v1 in
    check (str_eq r.destination "ATM" || str_eq r.destination "BANK") "destination"
      "must be ATM or BANK" v2
