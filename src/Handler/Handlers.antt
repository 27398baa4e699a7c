-- ===== src/Handler/Handlers.antt =====
-- The handlers of internal/handler/handler.go over the interface `Service` that they call, with
-- the state that the service keeps. `strconv.ParseInt(_, 10, 64)` is the parameter `parse_int`.
use equilibra.Common.{String, Bool, true, false, Option, none, some, str_eq, if◌then◌else◌}
use equilibra.Common.Int.{ℤ, pos, ltb_ℤ, leb_ℤ}
use equilibra.Errors.{Outcome, ok, err}
use equilibra.Service.Types.{Result, AccountBalance, Statement}
use equilibra.Service.History.{max_limit}
use equilibra.Handler.Validator.{Validator, new_validator, valid, check, add_error}
use equilibra.Handler.Requests.{
  TransferRequest, DepositRequest, WithdrawRequest, validate_transfer, validate_deposit,
  validate_withdraw, new_balance_response, new_account_history_response,
}
use equilibra.Handler.Responses.{
  plain, Envelope, Response, bad_request_response, not_found_response, failed_validation_response,
  handle_error, write_transaction,
}
use equilibra.Handler.Body.{Decoded, Read, malformed, value, read_json}

pub record Service (W : Type 0) : Type 0 where
  pub transfer : ℤ → ℤ → ℤ → String → W → Outcome Result × W
  pub deposit : ℤ → ℤ → String → String → W → Outcome Result × W
  pub withdraw : ℤ → ℤ → String → String → W → Outcome Result × W
  pub reverse : ℤ → String → W → Outcome Result × W
  pub account_balance : ℤ → W → Outcome AccountBalance × W
  pub account_transactions_history : ℤ → ℤ → ℤ → W → Outcome Statement × W

-- What a handler makes of the service's outcome.
unfoldable pub answer : Outcome Result → Response
answer (ok r) = write_transaction r
answer (err e) = handle_error e

abbrev pub answered : {W : Type 0} → Outcome Result × W → Response × W
answered (o, w) = (answer o, w)

-- The value of the header, if it has one.
unfoldable pub idempotency_key : String → Option String
idempotency_key header = if str_eq header "" then none else some header

abbrev pub missing_key : Response
missing_key = bad_request_response (plain "Idempotency-Key header: empty or not exist")

abbrev pub invalid_id : Response
invalid_id = not_found_response (plain "invalid id parameter")

-- The steps of a handler behind the guards that it shares with the others.
abbrev pub with_key : {W : Type 0} → Option String → (String → W → Response × W) → W → Response × W
with_key none k w = (missing_key, w)
with_key (some key) k w = k key w

abbrev pub with_id : {W : Type 0} → Option ℤ → (ℤ → W → Response × W) → W → Response × W
with_id none k w = (invalid_id, w)
with_id (some id) k w = k id w

abbrev pub with_body : {W A : Type 0} → Read A → (A → W → Response × W) → W → Response × W
with_body (malformed m) k w = (bad_request_response m, w)
with_body (value a) k w = k a w

abbrev pub if_valid : {W : Type 0} → Bool → Validator → (W → Response × W) → W → Response × W
if_valid true v k w = k w
if_valid false v k w = (failed_validation_response v.errors, w)

module _ {W : Type 0} (s : Service W) where
  unfoldable pub transfer_handler : String → Decoded TransferRequest → W → Response × W
  transfer_handler header body w =
      with_key (idempotency_key header)
        (λ key. with_body (read_json body) (λ r.
          let v = validate_transfer r new_validator in
          if_valid (valid v) v
            (λ w. answered (s.transfer r.from_account_id r.to_account_id r.amount key w))))
        w

  unfoldable pub deposit_handler : String → Decoded DepositRequest → W → Response × W
  deposit_handler header body w =
      with_key (idempotency_key header)
        (λ key. with_body (read_json body) (λ r.
          let v = validate_deposit r new_validator in
          if_valid (valid v) v (λ w. answered (s.deposit r.account_id r.amount r.source key w))))
        w

  unfoldable pub withdraw_handler : String → Decoded WithdrawRequest → W → Response × W
  withdraw_handler header body w =
      with_key (idempotency_key header)
        (λ key. with_body (read_json body) (λ r.
          let v = validate_withdraw r new_validator in
          if_valid (valid v) v
            (λ w. answered (s.withdraw r.account_id r.amount r.destination key w))))
        w

  unfoldable pub reverse_handler : (String → Option ℤ) → String → String → W → Response × W
  reverse_handler parse_int header path w =
      with_key (idempotency_key header)
        (λ key. with_id (parse_int path) (λ id w. answered (s.reverse id key w))) w

  abbrev balance_answer : Outcome AccountBalance × W → Response × W
  balance_answer (ok b, w) =
      (record { status = 200; body = Envelope.account (new_balance_response b) }, w)
  balance_answer (err e, w) = (handle_error e, w)

  unfoldable pub account_balance_handler : (String → Option ℤ) → String → W → Response × W
  account_balance_handler parse_int path w =
      with_id (parse_int path) (λ id w. balance_answer (s.account_balance id w)) w

  abbrev history_answer : Outcome Statement × W → Response × W
  history_answer (ok h, w) =
      (record { status = 200; body = Envelope.history (new_account_history_response h) }, w)
  history_answer (err e, w) = (handle_error e, w)

  -- The parameter's value, the default where it is empty or not a number, and the errors so far.
  abbrev parsed_or : Option ℤ → String → ℤ → Validator → ℤ × Validator
  parsed_or none key default v = (default, add_error key "must be an integer value" v)
  parsed_or (some i) key default v = (i, v)

  unfoldable pub read_int64 : (String → Option ℤ) → String → String → ℤ → Validator → ℤ × Validator
  read_int64 parse_int given key default v =
      if str_eq given "" then (default, v) else parsed_or (parse_int given) key default v

  unfoldable pub account_history_handler :
      (String → Option ℤ) → String → String → String → W → Response × W
  unfolding read_int64
  account_history_handler parse_int path limit_text before_text w =
      with_id (parse_int path)
        (λ id w.
          let (limit, v1) = read_int64 parse_int limit_text "limit" (pos 10) new_validator in
          let (before, v2) = read_int64 parse_int before_text "before" (pos 0) v1 in
          let v3 = check (ltb_ℤ (pos 0) limit) "limit" "must be greater than zero" v2 in
          let v4 = check (leb_ℤ limit max_limit) "limit" "must not exceed 999" v3 in
          let v5 = check (leb_ℤ (pos 0) before) "before" "must not be negative" v4 in
          if_valid (valid v5) v5
            (λ w. history_answer (s.account_transactions_history id limit before w)) w)
        w
