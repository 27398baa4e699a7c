-- ===== src/Errors.antt =====
-- The error values of internal/service/service.go, internal/storage/storage.go and
-- internal/relay/relay.go, and the outcome of a Go function that returns `(T, error)`.
use equilibra.Common.Int.{ℤ}

pub data Error : Type 0 where
  -- storage
  not_found duplicate_key : Error
  -- service
  not_enough invalid_amount same_account currency_mismatch : Error
  source_account_not_found destination_account_not_found transaction_not_found : Error
  transactions_mismatch system_account_not_allowed : Error
  invalid_deposit_destination invalid_withdraw_source system_account_not_found : Error
  reverse_incompleted_tx reverse_reversal_tx account_not_found : Error
  -- relay
  outbox_locked : Error
  -- a connection, a deadline or another failure reported by the driver
  driver : Error
  -- a statement that the database refuses: a CHECK, a foreign key, a unique index, a range
  constraint : Error
  -- `fmt.Errorf("lock account %d: %w", id, err)`
  lock_account : ℤ → Error → Error

pub data Outcome (A : Type 0) : Type 0 where
  ok : A → Outcome A
  err : Error → Outcome A
