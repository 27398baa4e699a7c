-- ===== src/Service/Tests.antt =====
-- Runs of the operations on a small ledger, and the theorems at inputs that meet their hypotheses.
use equilibra.Common.{
  ℕ, ◌≡◌, refl, ap, String, true, false, none, some, List, [], ◌∷◌, if◌then◌else◌, ◌==◌, find,
  exists, order_by, insert_by, select, All, ◌≢◌, arith,
}
use mathlib.Core.List.Perm
use equilibra.Common.Int.{
  pos_part, IsInt64, pos, ◌+ℤ◌, ◌-ℤ◌, ◌==ℤ◌, min_ℤ, max_ℤ, sub64, neg64, wrap64,
}
use equilibra.Errors.{Outcome, ok, err, not_enough, transactions_mismatch}
use equilibra.Events.{marshal, key}
use equilibra.Storage.Schema.{Transaction, AccountRow, AccountType, Status, TxType}
use equilibra.Storage.Session.{statement}
use equilibra.Storage.WithTx.{World, Conditions, Commit, with_tx, open_session}
use equilibra.Storage.Querier.{
  balance, get_account, get_account_for_update, get_system_account_by_code, account_with,
  account_with_code, create_transaction, transaction_with_key, references_hold, is_reversed,
  get_account_balance, get_transaction, get_transaction_by_id, update_transaction_status,
  updates_some, set_status, transaction_with_id, create_ledger_entry, create_outbox_event,
}
use equilibra.Storage.Querier.History.{get_account_history, history_rows, join_transactions}
use equilibra.Service.History.{
  account_transactions_history, history_body, clamp_limit, next_cursor, last_id, statement_entry,
}
use equilibra.Service.History.Page.{IsPage, history-IsPage}
use equilibra.Service.Types.{Statement, TransferParams, Result, new_result, compare_transactions}
use equilibra.Service.Core
use equilibra.Service.Core.Locks.{InOrder, transfer-InOrder}
use equilibra.Service.DoubleEntry.{IsBalanced, serve-IsBalanced}
use equilibra.Service.Overdraft.{IsCovered, serve-IsCovered}
use equilibra.Service.Mirror.{IsMirrored, serve-IsMirrored}
use equilibra.Service.Movement.{moved, handle-moves}
use equilibra.Service.Atomicity.{FailsClean, handle-FailsClean}
use equilibra.Service.Idempotency.Conflict.{transfer_conflict}
use equilibra.Service.Idempotency.{IsCalm, transfer_retry}
use equilibra.Service.Reversal.{reverse_once}
use equilibra.Service.Reversal.TakenKey.{TakenKey, reverse_taken}
use equilibra.Service.Operations.{transfer, deposit, withdraw, reverse}
use equilibra.Service.Requests.{Request, handle, serve, AllTyped}

abbrev account_row : ℕ → AccountType → List String → AccountRow
account_row id type [] = record {
  id = pos id;
  owner = "o";
  currency = "RUB";
  type = type;
  code = none;
  created_at = 0;
}
account_row id type (c ∷ _) = record {
  id = pos id;
  owner = "o";
  currency = "RUB";
  type = type;
  code = some c;
  created_at = 0;
}

abbrev pub ledger : World
ledger = record {
  db = record {
    accounts =
        account_row 1 AccountType.user []
        ∷ account_row 2 AccountType.user []
        ∷ account_row 3 AccountType.system ("ATM_IN_RUB" ∷ [])
        ∷ account_row 4 AccountType.system ("ATM_OUT_RUB" ∷ [])
        ∷ [];
    transactions = [];
    entries = [];
    outbox = [];
  };
  sequences = record { transactions = 1; entries = 1; outbox = 1 };
}

abbrev uuids : ℕ → String
uuids n =
    if n == 1
    then "u1"
    else if n == 2
    then "u2"
    else if n == 3
    then "u3"
    else if n == 4
    then "u4"
    else if n == 5
    then "u5"
    else "u6"

abbrev pub calm : Conditions
calm = record {
  begins = true;
  faults = [];
  now = 7;
  uuid = uuids;
  outbox_free = true;
  commit = Commit.acknowledged;
}

abbrev silent : Conditions
silent = record calm { commit = Commit.applied_unheard }

abbrev pub funded : World
funded = (deposit calm (pos 1) (pos 100) "ATM" "d1" ledger).1

abbrev paid_result : Result
paid_result = record {
  transaction_id = pos 2;
  source_id = pos 1;
  destination_id = pos 2;
  amount = pos 30;
  idempotency_key = "t1";
  status = Status.completed;
  type = TxType.transfer;
  created_at = 7;
  reversal_of = none;
  replayed = false;
}

abbrev undone_result : Result
undone_result = record {
  transaction_id = pos 3;
  source_id = pos 2;
  destination_id = pos 1;
  amount = pos 30;
  idempotency_key = "r1";
  status = Status.completed;
  type = TxType.reversal;
  created_at = 7;
  reversal_of = some (pos 2);
  replayed = false;
}

abbrev paid : Outcome Result × World
paid = transfer calm (pos 1) (pos 2) (pos 30) "t1" funded

abbrev undone : Outcome Result × World
undone = reverse calm (pos 2) "r1" paid.1

abbrev day : List (Conditions × Request)
day =
    (calm, Request.deposit (pos 1) (pos 100) "ATM" "d1")
    ∷ (calm, Request.transfer (pos 1) (pos 2) (pos 30) "t1")
    ∷ (silent, Request.withdraw (pos 2) (pos 10) "ATM" "w1")
    ∷ (calm, Request.withdraw (pos 2) (pos 100) "ATM" "w2")
    ∷ []

-- Opening this opens all that a run computes with.
unfoldable pub running : Unit {0}
unfolding serve handle deposit transfer withdraw reverse with_tx statement Core.transfer Core.post
    Core.replay balance get_account get_account_for_update get_system_account_by_code account_with
    account_with_code find exists select create_transaction transaction_with_key transaction_with_id
    references_hold is_reversed get_account_balance create_ledger_entry create_outbox_event
    get_transaction get_transaction_by_id update_transaction_status updates_some set_status min_ℤ
    max_ℤ ◌==ℤ◌ ◌+ℤ◌ ◌-ℤ◌ sub64 neg64 wrap64 marshal key new_result compare_transactions
running = tt

-- The balances of the two users at the end of the day; the last withdrawal is refused.
day_balances :
    (balance (pos 1) (serve day ledger).db.entries ≡ pos 70)
    × (balance (pos 2) (serve day ledger).db.entries ≡ pos 20)
unfolding running
day_balances = (refl, refl)

-- An outcome whose first part is known.
outcome_of : {A : Type 0} (o : Outcome A × World) {x : Outcome A} → o.0 ≡ x → o ≡ (x, o.1)
outcome_of o e = λ i. (e i, o.1)

ledger-IsBalanced : IsBalanced ledger.db
ledger-IsBalanced = record { typed = tt; by_transaction = λ t. refl; overall = refl }

day_typed : AllTyped day
day_typed = omega arith

serve-IsBalanced_example : IsBalanced (serve day ledger).db
serve-IsBalanced_example = serve-IsBalanced day ledger day_typed ledger-IsBalanced

ledger-IsCovered : IsCovered ledger.db
unfolding balance
ledger-IsCovered = record {
  balanced = ledger-IsBalanced;
  users = λ id row found of_user. omega arith;
}

serve-IsCovered_example : IsCovered (serve day ledger).db
serve-IsCovered_example =
    serve-IsCovered day ledger (refl, (refl, (refl, (refl, tt)))) day_typed ledger-IsCovered

ledger-IsMirrored : IsMirrored ledger.db
ledger-IsMirrored = record { balanced = ledger-IsBalanced; same = Perm.refl [] }

serve-IsMirrored_example : IsMirrored (serve day ledger).db
serve-IsMirrored_example = serve-IsMirrored day ledger day_typed ledger-IsMirrored

paid_ok :
    handle calm (Request.transfer (pos 1) (pos 2) (pos 30) "t1") funded ≡ (ok paid_result, paid.1)
unfolding running
paid_ok = outcome_of paid refl

pub funded_typed : All (λ (t : Transaction). IsInt64 t.amount) funded.db.transactions
unfolding running
funded_typed = omega arith

handle-moves_example : balance (pos 2) paid.1.db.entries ≡ (
    if paid_result.replayed
    then balance (pos 2) funded.db.entries
    else moved paid_result.source_id paid_result.destination_id paid_result.amount
        (pos 2)
        (balance (pos 2) funded.db.entries))
handle-moves_example =
    handle-moves calm (Request.transfer (pos 1) (pos 2) (pos 30) "t1") funded paid_result paid.1
      (pos 2) (omega arith) funded_typed paid_ok

abbrev too_much : Request
too_much = Request.transfer (pos 1) (pos 2) (pos 300) "t2"

refused : handle calm too_much funded ≡ (err not_enough, (handle calm too_much funded).1)
unfolding running
refused = outcome_of (handle calm too_much funded) refl

handle-FailsClean_example :
    FailsClean (λ d v. handle d too_much v) calm funded (handle calm too_much funded).1
handle-FailsClean_example =
    handle-FailsClean calm too_much funded (handle calm too_much funded).1 not_enough refused

pub calm-IsCalm : IsCalm calm
calm-IsCalm = record { begins = refl; faults = refl; commit = refl }

paid_first : transfer calm (pos 1) (pos 2) (pos 30) "t1" funded ≡ (ok paid_result, paid.1)
unfolding running
paid_first = outcome_of paid refl

transfer_retry_example :
    ((transfer calm (pos 1) (pos 2) (pos 30) "t1" paid.1).0
      ≡ ok (record paid_result { replayed = true }))
    × ((transfer calm (pos 1) (pos 2) (pos 30) "t1" paid.1).1.db ≡ paid.1.db)
transfer_retry_example =
    transfer_retry calm calm (pos 1) (pos 2) (pos 30) "t1" funded paid_result paid.1 paid_first
      calm-IsCalm

undone_first : reverse calm (pos 2) "r1" paid.1 ≡ (ok undone_result, undone.1)
unfolding running
undone_first = outcome_of undone refl

paid-IsBalanced : IsBalanced paid.1.db
paid-IsBalanced =
    unfold serve handle in
    serve-IsBalanced
      ((calm, Request.deposit (pos 1) (pos 100) "ATM" "d1")
        ∷ (calm, Request.transfer (pos 1) (pos 2) (pos 30) "t1")
        ∷ [])
      ledger (omega arith) ledger-IsBalanced

reverse_once_example : reverse calm (pos 2) "r2" (serve day undone.1) ≢ (ok undone_result, undone.1)
reverse_once_example =
    reverse_once calm calm (pos 2) "r1" "r2" paid.1 undone_result undone.1 day undone_result
      undone.1 paid-IsBalanced day_typed undone_first

-- The users paid each other the same amount, once each way.
abbrev repaid : World
repaid = (transfer calm (pos 2) (pos 1) (pos 30) "t2" paid.1).1

abbrev first_payment : Transaction
first_payment = record {
  id = pos 2;
  source_id = pos 1;
  destination_id = pos 2;
  amount = pos 30;
  idempotency_key = "t1";
  status = Status.completed;
  type = TxType.transfer;
  reversal_of = none;
  created_at = 7;
}

abbrev second_payment : Transaction
second_payment = record {
  id = pos 3;
  source_id = pos 2;
  destination_id = pos 1;
  amount = pos 30;
  idempotency_key = "t2";
  status = Status.completed;
  type = TxType.transfer;
  reversal_of = none;
  created_at = 7;
}

repaid-TakenKey : TakenKey (pos 3) "t1" repaid first_payment
unfolding running
repaid-TakenKey = record {
  tx = second_payment;
  source = account_row 1 AccountType.user [];
  destination = account_row 2 AccountType.user [];
  found = refl;
  completed = refl;
  plain = refl;
  source_found = refl;
  destination_found = refl;
  same_currency = refl;
  positive = omega arith;
  taken = refl;
  matches = refl;
}

reverse_taken_example :
    let (o, w) = reverse calm (pos 3) "t1" repaid in
    (o ≡ ok (record (new_result first_payment) { replayed = true }))
    × (w.db.entries ≡ repaid.db.entries)
    × (w.db.outbox ≡ repaid.db.outbox)
    × (w.db.transactions ≡ set_status (pos 3) Status.reversed repaid.db.transactions)
reverse_taken_example =
    reverse_taken (pos 3) "t1" repaid first_payment repaid-TakenKey calm calm-IsCalm

abbrev back_payment : TransferParams
back_payment = record {
  from = pos 2;
  to = pos 1;
  amount = pos 5;
  type = TxType.transfer;
  idempotency_key = "b1";
  reversal_of = none;
}

transfer-InOrder_example :
    InOrder back_payment
      (open_session calm funded)
      (Core.transfer back_payment (open_session calm funded))
transfer-InOrder_example = transfer-InOrder back_payment (open_session calm funded)

-- One entry of the first user, asked for one at a time: there may be more.
abbrev first_page : Statement
first_page = record {
  entries =
      record {
        entry_id = pos 2;
        transaction_id = pos 1;
        amount = pos 100;
        counterparty_id = pos 3;
        type = TxType.deposit;
        created_at = 7;
        reversal_of = none;
      }
      ∷ [];
  next_cursor = pos 2;
}

abbrev asked : Outcome Statement × World
asked = account_transactions_history calm (pos 1) (pos 1) (pos 0) funded

asked_page : asked ≡ (ok first_page, asked.1)
unfolding running account_transactions_history history_body clamp_limit next_cursor last_id
    statement_entry get_account_history history_rows join_transactions order_by insert_by
asked_page = outcome_of asked refl

history-IsPage_example : IsPage (pos 0) first_page
history-IsPage_example =
    history-IsPage calm (pos 1) (pos 1) (pos 0) funded first_page asked.1 asked_page

other_amount_test : pos 30 ≢ pos 31
other_amount_test = λ e. absurd (omega (arith, ap pos_part e))

transfer_conflict_example :
    ((transfer calm (pos 1) (pos 2) (pos 31) "t1" paid.1).0 ≡ err transactions_mismatch)
    × ((transfer calm (pos 1) (pos 2) (pos 31) "t1" paid.1).1.db ≡ paid.1.db)
transfer_conflict_example =
    transfer_conflict calm calm (pos 1) (pos 2) (pos 30) (pos 31) "t1" funded paid_result paid.1
      paid_first calm-IsCalm (omega arith) other_amount_test
