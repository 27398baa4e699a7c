-- ===== src/Service/Operations/Inversion.antt =====
-- What a successful closure of each operation has done.
use equilibra.Common.{◌≡◌, subst, String, Bool, true, false, not, ◌||◌, none, some, arith}
use equilibra.Common.Int.{ℤ, ◌==ℤ◌}
use equilibra.Errors.{
  ok, source_account_not_found, destination_account_not_found, transaction_not_found,
  system_account_not_allowed, invalid_deposit_destination, system_account_not_found, same_account,
  invalid_withdraw_source, reverse_incompleted_tx, reverse_reversal_tx,
}
use equilibra.Storage.Schema.{
  AccountRow, Account, AccountType, Transaction, TxType, Status, is_user, is_completed, is_reversal,
}
use equilibra.Storage.Session.{Session, or_not_found}
use equilibra.Storage.Session.Inversion.{SameState-trans, bind-ok, raise_if-ok, or_not_found-ok}
use Prim.Native.String.{◌++◌ as ◌+++◌}
use equilibra.Service.Core.Posting.{ok-injective}
use equilibra.Storage.Querier.{
  account_with_code, account_with, transaction_with_id, get_account, get_system_account_by_code,
  get_transaction_by_id, update_transaction_status,
}
use equilibra.Storage.Querier.Inversion.{
  get_account-ok, get_transaction_by_id-ok, get_system_account_by_code-ok,
  update_transaction_status-ok, StatusSet,
}
use equilibra.Service.Types.{TransferParams, Result}
use equilibra.Service.Core
use equilibra.Service.Core.Inversion.{Succeeds, Succeeds-SameState, transfer-Succeeds}
use equilibra.Service.Operations.{transfer_body, deposit_body, withdraw_body, reverse_body}

abbrev pub transfer_params : ℤ → ℤ → ℤ → String → TransferParams
transfer_params from to amount key = record {
  from = from;
  to = to;
  amount = amount;
  type = TxType.transfer;
  idempotency_key = key;
  reversal_of = none;
}

-- Between two accounts of users, the core has succeeded.
pub record Transferred (from to amount : ℤ) (key : String) (s : Session) (r : Result) (t : Session)
    : Type 0 where
  pub source : AccountRow
  pub destination : AccountRow
  pub source_found : account_with from s.db.accounts ≡ some source
  pub destination_found : account_with to s.db.accounts ≡ some destination
  pub source_user : is_user source.type ≡ true
  pub destination_user : is_user destination.type ≡ true
  pub done : Succeeds (transfer_params from to amount key) s r t

true_of_not : {b : Bool} → not b ≡ false → b ≡ true
true_of_not {b} h = ground arith

both_users :
    (a b : AccountType)
    → (not (is_user a) || not (is_user b)) ≡ false
    → (is_user a ≡ true) × (is_user b ≡ true)
both_users a b h = ground arith

pub transfer_body-ok :
    (from to amount : ℤ) (key : String) (s : Session) {r : Result} {t : Session}
    → transfer_body from to amount key s ≡ (ok r, t)
    → Transferred from to amount key s r t
unfolding transfer_body
transfer_body-ok from to amount key s h =
    let m1 = or_not_found (get_account from) source_account_not_found in
    let m2 = or_not_found (get_account to) destination_account_not_found in
    let (a, s1, e1, h1) = bind-ok m1 _ s h in
    let (row1, same1, found1, is1) =
      get_account-ok from s (or_not_found-ok (get_account from) _ s e1) in
    let (b, s2, e2, h2) = bind-ok m2 _ s1 h1 in
    let (row2, same2, found2, is2) =
      get_account-ok to s1 (or_not_found-ok (get_account to) _ s1 e2) in
    let (users, h3) =
      raise_if-ok (not (is_user a.type) || not (is_user b.type)) system_account_not_allowed _ s2
        h2 in
    let (user1, user2) = both_users a.type b.type users in
    record {
      source = row1;
      destination = row2;
      source_found = found1;
      destination_found = subst (λ d. account_with to d.accounts ≡ some row2) same1.db found2;
      source_user = subst (λ (x : Account). is_user x.type ≡ true) is1 user1;
      destination_user = subst (λ (x : Account). is_user x.type ≡ true) is2 user2;
      done =
          Succeeds-SameState (SameState-trans same1 same2)
            (transfer-Succeeds (transfer_params from to amount key) s2 h3);
    }

abbrev pub deposit_params : ℤ → ℤ → ℤ → String → TransferParams
deposit_params from to amount key = record {
  from = from;
  to = to;
  amount = amount;
  type = TxType.deposit;
  idempotency_key = key;
  reversal_of = none;
}

abbrev pub withdraw_params : ℤ → ℤ → ℤ → String → TransferParams
withdraw_params from to amount key = record {
  from = from;
  to = to;
  amount = amount;
  type = TxType.withdrawal;
  idempotency_key = key;
  reversal_of = none;
}

abbrev pub reverse_params : Transaction → String → TransferParams
reverse_params tx key = record {
  from = tx.destination_id;
  to = tx.source_id;
  amount = tx.amount;
  type = TxType.reversal;
  idempotency_key = key;
  reversal_of = some tx.id;
}

-- From the system account of the currency to a user's account, the core has succeeded.
pub record Deposited (to amount : ℤ) (place key : String) (s : Session) (r : Result) (t : Session)
    : Type 0 where
  pub account : AccountRow
  pub sys_account : AccountRow
  pub account_found : account_with to s.db.accounts ≡ some account
  pub sys_found :
      account_with_code (◌+++◌ place (◌+++◌ "_IN_" account.currency)) s.db.accounts
      ≡ some sys_account
  pub is_of_user : is_user account.type ≡ true
  pub is_system : is_user sys_account.type ≡ false
  pub distinct : (account.id ==ℤ sys_account.id) ≡ false
  pub done : Succeeds (deposit_params sys_account.id to amount key) s r t

pub deposit_body-ok :
    (to amount : ℤ) (place key : String) (s : Session) {r : Result} {t : Session}
    → deposit_body to amount place key s ≡ (ok r, t)
    → Deposited to amount place key s r t
unfolding deposit_body
deposit_body-ok to amount place key s {r} {t} h =
    let m1 = or_not_found (get_account to) destination_account_not_found in
    let (a, s1, e1, h1) = bind-ok m1 _ s h in
    let (row1, same1, found1, is1) =
      get_account-ok to s (or_not_found-ok (get_account to) _ s e1) in
    let (user1, h2) = raise_if-ok (not (is_user a.type)) invalid_deposit_destination _ s1 h1 in
    let code = ◌+++◌ place (◌+++◌ "_IN_" a.currency) in
    let m2 = or_not_found (get_system_account_by_code code) system_account_not_found in
    let (b, s2, e2, h3) = bind-ok m2 _ s1 h2 in
    let (row2, same2, found2, is2) =
      get_system_account_by_code-ok code s1
        (or_not_found-ok (get_system_account_by_code code) _ s1 e2) in
    let (sys, h4) = raise_if-ok (is_user b.type) system_account_not_found _ s2 h3 in
    let (apart, h5) = raise_if-ok (a.id ==ℤ b.id) same_account _ s2 h4 in
    record {
      account = row1;
      sys_account = row2;
      account_found = found1;
      sys_found = cc (found2, same1.db, is1);
      is_of_user = cc (true_of_not user1, is1);
      is_system = cc (sys, is2);
      distinct = cc (apart, is1, is2);
      done =
          subst (λ (x : Account). Succeeds (deposit_params x.id to amount key) s r t) is2
            (Succeeds-SameState (SameState-trans same1 same2)
              (transfer-Succeeds (deposit_params b.id to amount key) s2 h5));
    }

-- From a user's account to the system account of the currency, the core has succeeded.
pub record Withdrawn (from amount : ℤ) (place key : String) (s : Session) (r : Result) (t : Session)
    : Type 0 where
  pub account : AccountRow
  pub sys_account : AccountRow
  pub account_found : account_with from s.db.accounts ≡ some account
  pub sys_found :
      account_with_code (◌+++◌ place (◌+++◌ "_OUT_" account.currency)) s.db.accounts
      ≡ some sys_account
  pub is_of_user : is_user account.type ≡ true
  pub is_system : is_user sys_account.type ≡ false
  pub distinct : (account.id ==ℤ sys_account.id) ≡ false
  pub done : Succeeds (withdraw_params from sys_account.id amount key) s r t

pub withdraw_body-ok :
    (from amount : ℤ) (place key : String) (s : Session) {r : Result} {t : Session}
    → withdraw_body from amount place key s ≡ (ok r, t)
    → Withdrawn from amount place key s r t
unfolding withdraw_body
withdraw_body-ok from amount place key s {r} {t} h =
    let m1 = or_not_found (get_account from) source_account_not_found in
    let (a, s1, e1, h1) = bind-ok m1 _ s h in
    let (row1, same1, found1, is1) =
      get_account-ok from s (or_not_found-ok (get_account from) _ s e1) in
    let (user1, h2) = raise_if-ok (not (is_user a.type)) invalid_withdraw_source _ s1 h1 in
    let code = ◌+++◌ place (◌+++◌ "_OUT_" a.currency) in
    let m2 = or_not_found (get_system_account_by_code code) system_account_not_found in
    let (b, s2, e2, h3) = bind-ok m2 _ s1 h2 in
    let (row2, same2, found2, is2) =
      get_system_account_by_code-ok code s1
        (or_not_found-ok (get_system_account_by_code code) _ s1 e2) in
    let (sys, h4) = raise_if-ok (is_user b.type) system_account_not_found _ s2 h3 in
    let (apart, h5) = raise_if-ok (a.id ==ℤ b.id) same_account _ s2 h4 in
    record {
      account = row1;
      sys_account = row2;
      account_found = found1;
      sys_found = cc (found2, same1.db, is1);
      is_of_user = cc (true_of_not user1, is1);
      is_system = cc (sys, is2);
      distinct = cc (apart, is1, is2);
      done =
          subst (λ (x : Account). Succeeds (withdraw_params from x.id amount key) s r t) is2
            (Succeeds-SameState (SameState-trans same1 same2)
              (transfer-Succeeds (withdraw_params from b.id amount key) s2 h5));
    }

-- The core has succeeded with the accounts swapped, and the status has been set behind it.
pub record Reversed (id : ℤ) (key : String) (s : Session) (r : Result) (t : Session) : Type 0 where
  pub tx : Transaction
  pub found : transaction_with_id id s.db.transactions ≡ some tx
  pub was_completed : is_completed tx.status ≡ true
  pub no_reversal : is_reversal tx.type ≡ false
  pub middle : Session
  pub done : Succeeds (reverse_params tx key) s r middle
  pub status : StatusSet id Status.reversed middle t

pub reverse_body-ok :
    (id : ℤ) (key : String) (s : Session) {r : Result} {t : Session}
    → reverse_body id key s ≡ (ok r, t)
    → Reversed id key s r t
unfolding reverse_body
reverse_body-ok id key s {r} {t} h =
    let m1 = or_not_found (get_transaction_by_id id) transaction_not_found in
    let (tx, s1, e1, h1) = bind-ok m1 _ s h in
    let (same1, found) =
      get_transaction_by_id-ok id s (or_not_found-ok (get_transaction_by_id id) _ s e1) in
    let (open_tx, h2) = raise_if-ok (not (is_completed tx.status)) reverse_incompleted_tx _ s1 h1 in
    let (plain, h3) = raise_if-ok (is_reversal tx.type) reverse_reversal_tx _ s1 h2 in
    let (res, s2, e2, h4) = bind-ok (Core.transfer (reverse_params tx key)) _ s1 h3 in
    let (_, s3, e3, h5) = bind-ok (update_transaction_status id Status.reversed) _ s2 h4 in
    let (same_res, same_end) = ok-injective h5 in
    record {
      tx = tx;
      found = found;
      was_completed = true_of_not open_tx;
      no_reversal = plain;
      middle = s2;
      done = Succeeds-SameState same1 (
          subst (λ x. Succeeds (reverse_params tx key) s1 x s2) same_res
            (transfer-Succeeds (reverse_params tx key) s1 e2));
      status =
          subst (StatusSet id Status.reversed s2) same_end
            (update_transaction_status-ok id Status.reversed s2 e3);
    }
