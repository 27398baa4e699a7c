-- ===== src/Handler/Tests.antt =====
-- The theorems on the HTTP layer at requests on a small ledger.
use equilibra.Common.{
  ◌≡◌, refl, ◌↔◌, ◌≢◌, ◌⊎◌, String, true, Option, some, none, str_eq, arith, if◌then◌else◌,
}
use equilibra.Common.Int.{ℤ, pos, ◌<ℤ◌, ◌==ℤ◌}
use equilibra.Errors.{not_enough}
use equilibra.Storage.WithTx.{World, with_tx}
use equilibra.Service.Operations
use equilibra.Service.Operations.{transfer_body}
use equilibra.Service.Tests.{calm, funded, funded_typed, running}
use equilibra.Handler.Validator.{new_validator, valid, add_error}
use equilibra.Handler.Requests.{
  TransferRequest, DepositRequest, WithdrawRequest, validate_transfer, validate_deposit,
  validate_withdraw,
}
use equilibra.Handler.Responses.{Response, Envelope, of_error, handle_error, write_transaction}
use equilibra.Handler.Body.{decoded, read_json}
use equilibra.Handler.Handlers.{idempotency_key, answer, transfer_handler, deposit_handler}
use equilibra.Handler.Posts.{Post, handle_post}
use equilibra.Handler.Posts.Moved.{Tells, handle_post-Tells}
use equilibra.Handler.Posts.Refused.{handle_post-refused}
use equilibra.Handler.Validation.{validate_transfer-valid, validate-valid, validate_transfer-opens}

abbrev parse_two : String → Option ℤ
parse_two s = if str_eq s "2" then some (pos 2) else none

abbrev payment : TransferRequest
payment = record { from_account_id = pos 1; to_account_id = pos 2; amount = pos 30 }

abbrev large_payment : TransferRequest
large_payment = record { from_account_id = pos 1; to_account_id = pos 2; amount = pos 300 }

abbrev pay : Post
pay = Post.transfers "t1" (decoded payment true)

abbrev overpay : Post
overpay = Post.transfers "t1" (decoded large_payment true)

-- Opening this opens the handlers as well.
handling : Unit {0}
unfolding running handle_post transfer_handler deposit_handler idempotency_key read_json
    validate_transfer validate_deposit validate_withdraw add_error answer handle_error
    write_transaction
handling = tt

paid_status : (handle_post parse_two calm pay funded).0.status ≡ 201
unfolding handling
paid_status = refl

handle_post-Tells_example : Tells funded (handle_post parse_two calm pay funded)
handle_post-Tells_example = handle_post-Tells parse_two calm pay funded (omega arith) funded_typed

abbrev unprocessable : Response
unprocessable = record { status = 422; body = Envelope.error (of_error not_enough) }

response_of : (o : Response × World) {x : Response} → o.0 ≡ x → o ≡ (x, o.1)
response_of o e = λ i. (e i, o.1)

overpaid :
    handle_post parse_two calm overpay funded
    ≡ (unprocessable, (handle_post parse_two calm overpay funded).1)
unfolding handling
overpaid = response_of (handle_post parse_two calm overpay funded) refl

handle_post-refused_example : (handle_post parse_two calm overpay funded).1.db ≡ funded.db
handle_post-refused_example =
    handle_post-refused parse_two calm overpay funded unprocessable
      (handle_post parse_two calm overpay funded).1 (omega arith) overpaid (omega arith)
      (omega arith)

validate_transfer-valid_example :
    (valid (validate_transfer payment new_validator) ≡ true)
    ↔ ((pos 0 <ℤ pos 1) × (pos 0 <ℤ pos 2) × (pos 1 ≢ pos 2) × (pos 0 <ℤ pos 30))
validate_transfer-valid_example = validate_transfer-valid payment

abbrev card_deposit : DepositRequest
card_deposit = record { account_id = pos 1; amount = pos 5; source = "CARD" }

abbrev cash : WithdrawRequest
cash = record { account_id = pos 1; amount = pos 5; destination = "ATM" }

validate-valid_example :
    ((valid (validate_deposit card_deposit new_validator) ≡ true) ↔ (
      (pos 0 <ℤ pos 1)
      × (pos 0 <ℤ pos 5)
      × ((card_deposit.source ≡ "ATM") ⊎ (card_deposit.source ≡ "BANK"))))
    × ((valid (validate_withdraw cash new_validator) ≡ true) ↔ (
        (pos 0 <ℤ pos 1)
        × (pos 0 <ℤ pos 5)
        × ((cash.destination ≡ "ATM") ⊎ (cash.destination ≡ "BANK"))))
validate-valid_example = validate-valid card_deposit cash

payment_checked : valid (validate_transfer payment new_validator) ≡ true
unfolding validate_transfer ◌==ℤ◌
payment_checked = refl

validate_transfer-opens_example :
    Operations.transfer calm (pos 1) (pos 2) (pos 30) "t1" funded
    ≡ with_tx calm (transfer_body (pos 1) (pos 2) (pos 30) "t1") funded
validate_transfer-opens_example = validate_transfer-opens calm payment "t1" funded payment_checked
