-- ===== src/Handler/Responses.antt =====
-- internal/handler/errors.go and `writeTransaction` of internal/handler/helpers.go: the status and
-- the envelope of a response. The text of an error is a value, since it may hold numbers.
use equilibra.Common.{ℕ, String, List, if◌then◌else◌}
use equilibra.Common.Int.{ℤ}
use equilibra.Errors.{
  Error, not_enough, invalid_amount, same_account, currency_mismatch, source_account_not_found,
  destination_account_not_found, transaction_not_found, transactions_mismatch,
  system_account_not_allowed, invalid_deposit_destination, invalid_withdraw_source,
  system_account_not_found, reverse_incompleted_tx, reverse_reversal_tx, account_not_found,
  lock_account,
}
use equilibra.Service.Types.{Result}
use equilibra.Handler.Requests.{
  TransactionResponse, AccountBalanceResponse, AccountHistoryResponse, new_response,
}

-- A fixed text, a text around a number, or what `err.Error()` gives.
pub data Message : Type 0 where
  plain : String → Message
  around : String → ℤ → String → Message
  of_error : Error → Message

-- The envelope's single key and its value.
pub data Envelope : Type 0 where
  error : Message → Envelope
  errors : List (String × String) → Envelope
  transaction : TransactionResponse → Envelope
  account : AccountBalanceResponse → Envelope
  history : AccountHistoryResponse → Envelope

pub record Response : Type 0 where
  pub status : ℕ
  pub body : Envelope

abbrev pub server_error_response : Response
server_error_response = record {
  status = 500;
  body = error (plain "the server encountered a problem and could not process your request");
}

abbrev pub bad_request_response : Message → Response
bad_request_response m = record { status = 400; body = error m }

abbrev pub not_found_response : Message → Response
not_found_response m = record { status = 404; body = error m }

abbrev pub unprocessable_entity_response : Message → Response
unprocessable_entity_response m = record { status = 422; body = error m }

abbrev pub conflict_response : Message → Response
conflict_response m = record { status = 409; body = error m }

abbrev pub failed_validation_response : List (String × String) → Response
failed_validation_response fields = record { status = 400; body = errors fields }

-- What `errors.Is` meets at the end of the chain of wrapped errors.
abbrev pub root : Error → Error
root (lock_account id e) = root e
root e = e

-- The switch of `handleError`, on the error that the chain ends in.
abbrev pub handle_root : Error → Message → Response
handle_root invalid_amount m = bad_request_response m
handle_root same_account m = bad_request_response m
handle_root source_account_not_found m = not_found_response m
handle_root destination_account_not_found m = not_found_response m
handle_root system_account_not_found m = not_found_response m
handle_root transaction_not_found m = not_found_response m
handle_root account_not_found m = not_found_response m
handle_root not_enough m = unprocessable_entity_response m
handle_root currency_mismatch m = unprocessable_entity_response m
handle_root system_account_not_allowed m = unprocessable_entity_response m
handle_root invalid_withdraw_source m = unprocessable_entity_response m
handle_root invalid_deposit_destination m = unprocessable_entity_response m
handle_root transactions_mismatch m = conflict_response m
handle_root reverse_incompleted_tx m = conflict_response m
handle_root reverse_reversal_tx m = conflict_response m
handle_root e m = server_error_response

unfoldable pub handle_error : Error → Response
handle_error e = handle_root (root e) (of_error e)

unfoldable pub write_transaction : Result → Response
write_transaction r = record {
  status = if r.replayed then 200 else 201;
  body = transaction (new_response r);
}
