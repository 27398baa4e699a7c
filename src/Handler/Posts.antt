-- ===== src/Handler/Posts.antt =====
-- The four POST routes of internal/handler/handler.go on the service of internal/service, each
-- with the header, the path parameter and the body that reach it.
pub mod Rule
pub mod Refused
pub mod Moved
use equilibra.Common.{String, Option, Bool}
use equilibra.Common.Int.{ℤ, IsInt64}
use equilibra.Storage.WithTx.{World, Conditions}
use equilibra.Service.Operations
use equilibra.Service.History.{account_transactions_history}
use equilibra.Handler.Requests.{TransferRequest, DepositRequest, WithdrawRequest}
use equilibra.Handler.Responses.{Response}
use equilibra.Handler.Body.{Decoded, failed, decoded}
use equilibra.Handler.Handlers.{
  Service, transfer_handler, deposit_handler, withdraw_handler, reverse_handler,
}

abbrev pub database_service : Conditions → Service World
database_service c = record {
  transfer = Operations.transfer c;
  deposit = Operations.deposit c;
  withdraw = Operations.withdraw c;
  reverse = Operations.reverse c;
  account_balance = Operations.account_balance c;
  account_transactions_history = account_transactions_history c;
}

-- A routed request: the Idempotency-Key header, then the body or the path parameter.
pub data Post : Type 0 where
  transfers : String → Decoded TransferRequest → Post
  deposits : String → Decoded DepositRequest → Post
  withdrawals : String → Decoded WithdrawRequest → Post
  reversals : String → String → Post

unfoldable pub handle_post : (String → Option ℤ) → Conditions → Post → World → Response × World
handle_post parse_int c (transfers header body) w =
    transfer_handler (database_service c) header body w
handle_post parse_int c (deposits header body) w =
    deposit_handler (database_service c) header body w
handle_post parse_int c (withdrawals header body) w =
    withdraw_handler (database_service c) header body w
handle_post parse_int c (reversals header path) w =
    reverse_handler (database_service c) parse_int header path w

-- A decoded body has a property.
abbrev pub AllDecoded : {A : Type 0} → (A → Type 0) → Decoded A → Type 0
AllDecoded Q (failed e) = Unit
AllDecoded Q (decoded a last) = Q a

-- Decoded amounts are int64, as their Go type says.
abbrev pub IsTypedPost : Post → Type 0
IsTypedPost (transfers header body) = AllDecoded (λ r. IsInt64 r.amount) body
IsTypedPost (deposits header body) = AllDecoded (λ r. IsInt64 r.amount) body
IsTypedPost (withdrawals header body) = AllDecoded (λ r. IsInt64 r.amount) body
IsTypedPost (reversals header path) = Unit
