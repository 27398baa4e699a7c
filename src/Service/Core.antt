-- ===== src/Service/Core.antt =====
-- The unexported method `transfer` of internal/service/service.go: the core of every movement of
-- money, run inside the caller's database transaction.
pub mod Posting
pub mod Inversion
pub mod Replay
pub mod Locks
use equilibra.Common.{String, Bool, true, ◌&&◌, ◌||◌, not, str_eq, if◌then◌else◌}
use equilibra.Common.Int.{ℤ, pos, ltb_ℤ, ◌==ℤ◌, min_ℤ, max_ℤ, sub64, neg64}
use equilibra.Errors.{
  Error, Outcome, ok, err, not_found, duplicate_key, not_enough, currency_mismatch,
  source_account_not_found, destination_account_not_found, transactions_mismatch, lock_account,
}
use equilibra.Events.{EntryPosted, key}
use equilibra.Storage.Schema.{Account, Transaction, Status, is_user, is_reversal}
use equilibra.Storage.Session.{Session, Exec, pure, raise, raise_if, ◌>>=◌, ◌>>◌}
use equilibra.Storage.Querier.{
  get_account_for_update, create_transaction, get_transaction, get_account_balance,
  create_ledger_entry, create_outbox_event,
}
use equilibra.Service.Types.{TransferParams, Result, new_result, compare_transactions}

-- What a failed lock is reported as.
abbrev lock_error : TransferParams → ℤ → Error → Error
lock_error p id not_found =
    if id ==ℤ p.from then source_account_not_found else destination_account_not_found
lock_error p id e = lock_account id e

abbrev or_lock_error : {A : Type 0} → TransferParams → ℤ → Outcome A × Session → Outcome A × Session
or_lock_error p id (ok a, s) = (ok a, s)
or_lock_error p id (err e, s) = (err (lock_error p id e), s)

unfoldable pub lock_for_transfer : TransferParams → ℤ → Exec Account
lock_for_transfer p id s = or_lock_error p id (get_account_for_update id s)

-- The argument of `CreateTransaction`; the fields that the call leaves out are zero values, which
-- the insertion sets.
abbrev pub new_transaction : TransferParams → Transaction
new_transaction p = record {
  id = pos 0;
  source_id = p.from;
  destination_id = p.to;
  amount = p.amount;
  idempotency_key = p.idempotency_key;
  status = Status.pending;
  type = p.type;
  reversal_of = p.reversal_of;
  created_at = 0;
}

abbrev pub debit_event : TransferParams → Account → Transaction → EntryPosted
debit_event p source created = record {
  account_id = p.from;
  transaction_id = created.id;
  transaction_type = created.type;
  amount = neg64 p.amount;
  currency = source.currency;
  counterparty_id = p.to;
  reversal_of = created.reversal_of;
  occurred_at = created.created_at;
}

abbrev pub credit_event : TransferParams → Account → Transaction → EntryPosted
credit_event p destination created = record {
  account_id = p.to;
  transaction_id = created.id;
  transaction_type = created.type;
  amount = p.amount;
  currency = destination.currency;
  counterparty_id = p.from;
  reversal_of = created.reversal_of;
  occurred_at = created.created_at;
}

-- events.EntryTypePosted
abbrev pub entry_type_posted : String
entry_type_posted = "entry.posted"

-- `sourceAccount.Type == accountTypeSystem || txType == TxTypeReversal`
abbrev pub allow_negative : Account → TransferParams → Bool
allow_negative source p = not (is_user source.type) || is_reversal p.type

-- `balanceFrom-amount < 0` where a negative balance is not allowed.
unfoldable pub is_overdrawn : Account → TransferParams → ℤ → Bool
is_overdrawn source p balance_from =
    ltb_ℤ (sub64 balance_from p.amount) (pos 0) && not (allow_negative source p)

-- From the created transaction on: the overdraft check, two entries and two events.
unfoldable pub post : TransferParams → Account → Account → Transaction → Exec Result
unfolding is_overdrawn
post p source destination created = do
  balance_from ← get_account_balance p.from
  raise_if (is_overdrawn source p balance_from) not_enough
  create_ledger_entry created.id p.from (neg64 p.amount)
  create_ledger_entry created.id p.to p.amount
  let credit = credit_event p destination created
  let debit = debit_event p source created
  create_outbox_event entry_type_posted (key credit) credit
  create_outbox_event entry_type_posted (key debit) debit
  pure (new_result created)

-- The idempotency key is taken: the earlier result, if the arguments match.
unfoldable pub replay : TransferParams → Exec Result
replay p = do
  prev ← get_transaction p.idempotency_key
  if compare_transactions (new_transaction p) prev
      then pure (record (new_result prev) { replayed = true })
      else raise transactions_mismatch

unfoldable pub after_create :
    TransferParams → Account → Account → Outcome Transaction × Session → Outcome Result × Session
after_create p source destination (ok created, s) = post p source destination created s
after_create p source destination (err duplicate_key, s) = replay p s
after_create p source destination (err e, s) = (err e, s)

-- The part behind the locks.
unfoldable pub transfer_locked : TransferParams → Account → Account → Exec Result
unfolding after_create
transfer_locked p source destination = do
  raise_if (not (str_eq source.currency destination.currency)) currency_mismatch
  λ s. after_create p source destination (create_transaction (new_transaction p) s)

unfoldable pub transfer : TransferParams → Exec Result
unfolding transfer_locked lock_for_transfer
transfer p = do
  let first = min_ℤ p.from p.to
  let second = max_ℤ p.from p.to
  first_account ← lock_for_transfer p first
  second_account ← lock_for_transfer p second
  if first ==ℤ p.from
      then transfer_locked p first_account second_account
      else transfer_locked p second_account first_account
