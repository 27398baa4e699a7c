-- ===== src/Handler/Posts/Rule.antt =====
-- What holds of every guard's refusal and of every answer of the service holds of every response.
use equilibra.Common.{String, Bool, true, false, Option, none, some, ◌≡◌, refl}
use equilibra.Common.Int.{ℤ}
use equilibra.Storage.WithTx.{World, Conditions}
use equilibra.Service.Requests.{Request, IsTyped, handle}
use equilibra.Handler.Validator.{Validator, valid, new_validator}
use equilibra.Handler.Requests.{validate_transfer, validate_deposit, validate_withdraw}
use equilibra.Handler.Responses.{Response}
use equilibra.Handler.Body.{Decoded, failed, decoded, read_json}
use equilibra.Handler.Handlers.{
  answered, with_key, with_id, with_body, if_valid, idempotency_key, transfer_handler,
  deposit_handler, withdraw_handler, reverse_handler,
}
use equilibra.Handler.Posts.{
  Post, transfers, deposits, withdrawals, reversals, handle_post, AllDecoded, IsTypedPost,
}

-- A predicate on what a request ends in that every refusal of a guard satisfies: a status of 400
-- or 404 and the same world.
pub record Admits (w : World) (P : Response × World → Type 0) : Type 0 where
  pub bad : (x : Response) → x.status ≡ 400 → P (x, w)
  pub missing : (x : Response) → x.status ≡ 404 → P (x, w)

module _ (w : World) (P : Response × World → Type 0) (g : Admits w P) where
  with_key-rule :
      (o : Option String) (k : String → World → Response × World)
      → ((key : String) → P (k key w))
      → P (with_key o k w)
  with_key-rule none k h = g.bad _ refl
  with_key-rule (some key) k h = h key

  with_id-rule :
      (o : Option ℤ) (k : ℤ → World → Response × World)
      → ((id : ℤ) → P (k id w))
      → P (with_id o k w)
  with_id-rule none k h = g.missing _ refl
  with_id-rule (some id) k h = h id

  with_body-rule :
      {A : Type 0} (Q : A → Type 0) (b : Decoded A) (k : A → World → Response × World)
      → AllDecoded Q b
      → ((a : A) → Q a → P (k a w))
      → P (with_body (read_json b) k w)
  unfolding read_json
  with_body-rule Q (failed e) k q h = g.bad _ refl
  with_body-rule Q (decoded a true) k q h = h a q
  with_body-rule Q (decoded a false) k q h = g.bad _ refl

  if_valid-rule :
      (b : Bool) (v : Validator) (k : World → Response × World) → P (k w) → P (if_valid b v k w)
  if_valid-rule true v k h = h
  if_valid-rule false v k h = g.bad _ refl

  pub handle_post-rule :
      (parse_int : String → Option ℤ) (c : Conditions) (p : Post)
      → IsTypedPost p
      → ((q : Request) → IsTyped q → P (answered (handle c q w)))
      → P (handle_post parse_int c p w)
  unfolding handle_post handle transfer_handler deposit_handler withdraw_handler reverse_handler
  handle_post-rule parse_int c (transfers header body) typed h =
      with_key-rule (idempotency_key header) _ (λ key. with_body-rule _ body _ typed (λ r t.
        let v = validate_transfer r new_validator in
        if_valid-rule (valid v) v _
          (h (Request.transfer r.from_account_id r.to_account_id r.amount key) t)))
  handle_post-rule parse_int c (deposits header body) typed h =
      with_key-rule (idempotency_key header) _ (λ key. with_body-rule _ body _ typed (λ r t.
        let v = validate_deposit r new_validator in
        if_valid-rule (valid v) v _ (h (Request.deposit r.account_id r.amount r.source key) t)))
  handle_post-rule parse_int c (withdrawals header body) typed h =
      with_key-rule (idempotency_key header) _ (λ key. with_body-rule _ body _ typed (λ r t.
        let v = validate_withdraw r new_validator in
        if_valid-rule (valid v) v _
          (h (Request.withdraw r.account_id r.amount r.destination key) t)))
  handle_post-rule parse_int c (reversals header path) typed h =
      with_key-rule (idempotency_key header) _
        (λ key. with_id-rule (parse_int path) _ (λ id. h (Request.reverse id key) tt))
