-- ===== src/Service/Operations.antt =====
-- The exported methods of `Service` that move money, and `AccountBalance`
-- (internal/service/service.go). Each is one database transaction.
pub mod Inversion
use equilibra.Common.{String, not, ◌||◌, none, some, if◌then◌else◌}
use equilibra.Common.Int.{ℤ, pos, leb_ℤ, ◌==ℤ◌}
use equilibra.Errors.{
  Outcome, err, invalid_amount, same_account, source_account_not_found,
  destination_account_not_found, transaction_not_found, system_account_not_allowed,
  invalid_deposit_destination, invalid_withdraw_source, system_account_not_found,
  reverse_incompleted_tx, reverse_reversal_tx, account_not_found,
}
use equilibra.Storage.Schema.{TxType, Status, is_user, is_completed, is_reversal}
use equilibra.Storage.Session.{Exec, pure, raise_if, or_not_found, ◌>>=◌, ◌>>◌}
use equilibra.Storage.Querier.{
  get_account, get_system_account_by_code, get_transaction_by_id, update_transaction_status,
  get_account_balance,
}
use equilibra.Storage.WithTx.{World, Conditions, with_tx}
use equilibra.Service.Types.{Result, AccountBalance}
use equilibra.Service.Core
use Prim.Native.String.{◌++◌ as ◌+++◌}

-- The closure of `Transfer`.
unfoldable pub transfer_body : ℤ → ℤ → ℤ → String → Exec Result
transfer_body from to amount key = do
  from_account ← or_not_found (get_account from) source_account_not_found
  to_account ← or_not_found (get_account to) destination_account_not_found
  raise_if (not (is_user from_account.type) || not (is_user to_account.type))
      system_account_not_allowed
  Core.transfer (record {
    from = from;
    to = to;
    amount = amount;
    type = TxType.transfer;
    idempotency_key = key;
    reversal_of = none;
  })

unfoldable pub transfer : Conditions → ℤ → ℤ → ℤ → String → World → Outcome Result × World
unfolding transfer_body
transfer c from to amount key w =
    if leb_ℤ amount (pos 0)
    then (err invalid_amount, w)
    else if from ==ℤ to
    then (err same_account, w)
    else with_tx c (transfer_body from to amount key) w

unfoldable pub deposit_body : ℤ → ℤ → String → String → Exec Result
deposit_body destination amount source key = do
  account ← or_not_found (get_account destination) destination_account_not_found
  raise_if (not (is_user account.type)) invalid_deposit_destination
  let code = ◌+++◌ source (◌+++◌ "_IN_" account.currency)
  sys_account ← or_not_found (get_system_account_by_code code) system_account_not_found
  raise_if (is_user sys_account.type) system_account_not_found
  raise_if (account.id ==ℤ sys_account.id) same_account
  Core.transfer (record {
    from = sys_account.id;
    to = destination;
    amount = amount;
    type = TxType.deposit;
    idempotency_key = key;
    reversal_of = none;
  })

unfoldable pub deposit : Conditions → ℤ → ℤ → String → String → World → Outcome Result × World
unfolding deposit_body
deposit c destination amount source key w =
    if leb_ℤ amount (pos 0)
    then (err invalid_amount, w)
    else with_tx c (deposit_body destination amount source key) w

unfoldable pub withdraw_body : ℤ → ℤ → String → String → Exec Result
withdraw_body source amount destination key = do
  account ← or_not_found (get_account source) source_account_not_found
  raise_if (not (is_user account.type)) invalid_withdraw_source
  let code = ◌+++◌ destination (◌+++◌ "_OUT_" account.currency)
  sys_account ← or_not_found (get_system_account_by_code code) system_account_not_found
  raise_if (is_user sys_account.type) system_account_not_found
  raise_if (account.id ==ℤ sys_account.id) same_account
  Core.transfer (record {
    from = source;
    to = sys_account.id;
    amount = amount;
    type = TxType.withdrawal;
    idempotency_key = key;
    reversal_of = none;
  })

unfoldable pub withdraw : Conditions → ℤ → ℤ → String → String → World → Outcome Result × World
unfolding withdraw_body
withdraw c source amount destination key w =
    if leb_ℤ amount (pos 0)
    then (err invalid_amount, w)
    else with_tx c (withdraw_body source amount destination key) w

unfoldable pub reverse_body : ℤ → String → Exec Result
reverse_body transaction_id key = do
  tx ← or_not_found (get_transaction_by_id transaction_id) transaction_not_found
  raise_if (not (is_completed tx.status)) reverse_incompleted_tx
  raise_if (is_reversal tx.type) reverse_reversal_tx
  res ← Core.transfer (record {
    from = tx.destination_id;
    to = tx.source_id;
    amount = tx.amount;
    type = TxType.reversal;
    idempotency_key = key;
    reversal_of = some tx.id;
  })
  update_transaction_status transaction_id Status.reversed
  pure res

unfoldable pub reverse : Conditions → ℤ → String → World → Outcome Result × World
unfolding reverse_body
reverse c transaction_id key w = with_tx c (reverse_body transaction_id key) w

unfoldable pub balance_body : ℤ → Exec AccountBalance
balance_body id = do
  account ← or_not_found (get_account id) account_not_found
  total ← get_account_balance id
  pure (record { account_id = account.id; currency = account.currency; balance = total })

unfoldable pub account_balance : Conditions → ℤ → World → Outcome AccountBalance × World
unfolding balance_body
account_balance c id w = with_tx c (balance_body id) w
