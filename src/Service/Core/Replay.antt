-- ===== src/Service/Core/Replay.antt =====
-- The core on a key that is taken, where no statement is failed by the driver.
use equilibra.Common.{◌≡◌, ap, ◌∙◌, true, [], some, arith, inl, inr, str_eq, if◌then◌else◌}
use equilibra.Common.Int.{ℤ, pos, ◌<ℤ◌, min_ℤ, max_ℤ, min_max_cases}
use equilibra.Errors.{Outcome, ok, err, transactions_mismatch}
use equilibra.Storage.Schema.{AccountRow, Transaction}
use equilibra.Storage.Session.{Session, Lock}
use equilibra.Storage.Querier.{scan_account, account_with, transaction_with_key}
use equilibra.Storage.Querier.Calm.{
  with_lock, with_number, get_account_for_update_calm, get_transaction_calm,
  create_transaction_taken,
}
use equilibra.Service.Types.{TransferParams, Result, new_result, compare_transactions}
use equilibra.Service.Core.{lock_for_transfer, new_transaction, replay, transfer_locked, transfer}

-- What the core returns on a taken key.
abbrev pub replay_outcome : TransferParams → Transaction → Outcome Result
replay_outcome p prev =
    if compare_transactions (new_transaction p) prev
    then ok (record (new_result prev) { replayed = true })
    else err transactions_mismatch

module _ (p : TransferParams) (s : Session) (calm : s.faults ≡ []) where
  lock_calm :
      (id : ℤ) {row : AccountRow}
      → account_with id s.db.accounts ≡ some row
      → lock_for_transfer p id s ≡ (ok (scan_account row), with_lock (Lock.account id) s)
  unfolding lock_for_transfer
  lock_calm id found = rw (get_account_for_update_calm s calm id found)

  replay_calm :
      {prev : Transaction}
      → transaction_with_key p.idempotency_key s.db.transactions ≡ some prev
      → replay p s ≡ (replay_outcome p prev, s)
  unfolding replay
  replay_calm found = rw (get_transaction_calm s calm p.idempotency_key found) (ground arith)

module _ (p : TransferParams) (s : Session) (calm : s.faults ≡ []) where
  locked_taken :
      (source destination : AccountRow) {prev : Transaction}
      → str_eq source.currency destination.currency ≡ true
      → pos 0 <ℤ p.amount
      → transaction_with_key p.idempotency_key s.db.transactions ≡ some prev
      → transfer_locked p (scan_account source) (scan_account destination) s
        ≡ (replay_outcome p prev, with_number s)
  unfolding transfer_locked
  locked_taken source destination currency positive found =
      rw (currency, create_transaction_taken s calm (new_transaction p) positive found)
        (replay_calm p (with_number s) calm found)

-- The session behind the locks of the two accounts and a number from the sequence.
abbrev pub replayed_session : TransferParams → Session → Session
replayed_session p s =
    with_number (
      with_lock (Lock.account (max_ℤ p.from p.to)) (with_lock (Lock.account (min_ℤ p.from p.to)) s))

-- On a taken key the core locks both accounts, takes a number and answers from the earlier
-- transaction; it changes no table.
pub transfer_taken :
    (p : TransferParams) (s : Session) (source destination : AccountRow) (prev : Transaction)
    → s.faults ≡ []
    → account_with p.from s.db.accounts ≡ some source
    → account_with p.to s.db.accounts ≡ some destination
    → str_eq source.currency destination.currency ≡ true
    → pos 0 <ℤ p.amount
    → transaction_with_key p.idempotency_key s.db.transactions ≡ some prev
    → transfer p s ≡ (replay_outcome p prev, replayed_session p s)
unfolding transfer
transfer_taken p s source destination prev calm f1 f2 currency positive found =
    let lo = min_ℤ p.from p.to in
    let hi = max_ℤ p.from p.to in
    let s1 = with_lock (Lock.account lo) s in
    let s2 = with_lock (Lock.account hi) s1 in
    elim (min_max_cases p.from p.to) [
      | inl (test, is_lo, is_hi) ↦
          rw
            (
              lock_calm p s calm lo (ap (λ x. account_with x s.db.accounts) is_lo ∙ f1),
              lock_calm p s1 calm hi (ap (λ x. account_with x s.db.accounts) is_hi ∙ f2),
              test,
            )
            (locked_taken p s2 calm source destination currency positive found)
      | inr (test, is_lo, is_hi) ↦
          rw
            (
              lock_calm p s calm lo (ap (λ x. account_with x s.db.accounts) is_lo ∙ f2),
              lock_calm p s1 calm hi (ap (λ x. account_with x s.db.accounts) is_hi ∙ f1),
              test,
            )
            (locked_taken p s2 calm source destination currency positive found)
    ]
