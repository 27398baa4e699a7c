-- ===== src/Handler/Validation.antt =====
-- Which request bodies the checks of internal/handler/requests.go let through, and that a transfer
-- that they let through passes the service's own guards.
use equilibra.Common.{
  ◌≡◌, refl, ◌∙◌, ◌≢◌, ◌↔◌, ◌⊎◌, String, Bool, true, false, ◌&&◌, str_eq, eq_iff, List, [], ◌∷◌,
  ◌++◌, exists, arith, if◌then◌else◌,
}
use equilibra.Common.Int.{pos, ◌<ℤ◌, leb_ℤ, ◌==ℤ◌, ==ℤ_iff}
use equilibra.Storage.WithTx.{World, Conditions, with_tx}
use equilibra.Service.Operations
use equilibra.Service.Operations.{transfer_body}
use equilibra.Handler.Validator.{Validator, new_validator, valid, check, add_error}
use equilibra.Handler.Requests.{
  TransferRequest, DepositRequest, WithdrawRequest, validate_transfer, validate_deposit,
  validate_withdraw,
}

valid-add_error : (k m : String) (v : Validator) → valid (add_error k m v) ≡ false
unfolding add_error exists
valid-add_error k m v = by_errors v.errors
  where
    by_errors :
        (es : List (String × String))
        → valid (
            if exists (λ e. str_eq k e.0) es
            then record { errors = es }
            else record { errors = es ++ (k, m) ∷ [] })
          ≡ false
    by_errors [] = refl
    by_errors (e ∷ es) = ground arith

valid-check : (b : Bool) (k m : String) (v : Validator) → valid (check b k m v) ≡ valid v && b
valid-check true k m v = ground arith
valid-check false k m v = valid-add_error k m v ∙ ground arith

-- A transfer's body is let through just when both ids are positive and distinct and the amount is
-- positive.
pub validate_transfer-valid :
    (r : TransferRequest)
    → (valid (validate_transfer r new_validator) ≡ true) ↔ (
        (pos 0 <ℤ r.from_account_id)
        × (pos 0 <ℤ r.to_account_id)
        × (r.from_account_id ≢ r.to_account_id)
        × (pos 0 <ℤ r.amount))
unfolding validate_transfer
validate_transfer-valid r =
    rw (valid-check _ _ _ _, valid-check _ _ _ _, valid-check _ _ _ _, valid-check _ _ _ _)
      (ground (arith, ==ℤ_iff r.from_account_id r.to_account_id))

-- A deposit's body is let through just when its account id and its amount are positive and its
-- source is ATM or BANK; a withdrawal's, when the same holds of its destination.
pub validate-valid :
    (d : DepositRequest) (r : WithdrawRequest)
    → ((valid (validate_deposit d new_validator) ≡ true) ↔ (
        (pos 0 <ℤ d.account_id) × (pos 0 <ℤ d.amount) × ((d.source ≡ "ATM") ⊎ (d.source ≡ "BANK"))))
      × ((valid (validate_withdraw r new_validator) ≡ true) ↔ (
          (pos 0 <ℤ r.account_id)
          × (pos 0 <ℤ r.amount)
          × ((r.destination ≡ "ATM") ⊎ (r.destination ≡ "BANK"))))
unfolding validate_deposit validate_withdraw
validate-valid d r = (
  rw (valid-check _ _ _ _, valid-check _ _ _ _, valid-check _ _ _ _)
      (ground (arith, eq_iff d.source "ATM", eq_iff d.source "BANK")),
  rw (valid-check _ _ _ _, valid-check _ _ _ _, valid-check _ _ _ _)
      (ground (arith, eq_iff r.destination "ATM", eq_iff r.destination "BANK")),
)

-- A transfer whose body is let through passes the service's guards on the amount and on the
-- accounts: the service opens its database transaction for it.
pub validate_transfer-opens :
    (c : Conditions) (r : TransferRequest) (key : String) (w : World)
    → valid (validate_transfer r new_validator) ≡ true
    → Operations.transfer c r.from_account_id r.to_account_id r.amount key w
      ≡ with_tx c (transfer_body r.from_account_id r.to_account_id r.amount key) w
unfolding Operations.transfer
validate_transfer-opens c r key w h =
    let (_, _, distinct, positive) = (validate_transfer-valid r).0 h in
    let amount : leb_ℤ r.amount (pos 0) ≡ false = ground arith in
    let accounts : (r.from_account_id ==ℤ r.to_account_id) ≡ false =
      ground (arith, ==ℤ_iff r.from_account_id r.to_account_id) in
    rw (amount, accounts) refl
