-- ===== src/Storage/Querier/Calm.antt =====
-- What each query returns where no statement is failed by the driver.
use equilibra.Common.{true, ◌+◌, ◌≡◌, ◌∙◌, String, [], ◌∷◌, ◌++◌, some, arith}
use equilibra.Common.Int.{ℤ, pos, ◌<ℤ◌}
use equilibra.Errors.{ok, err, duplicate_key}
use equilibra.Storage.Schema.{AccountRow, Transaction, Status}
use equilibra.Storage.Session.{Session, Lock, Exec, statement}
use equilibra.Storage.Querier.{
  scan_account, account_with, transaction_with_id, transaction_with_key, get_account,
  get_account_for_update, create_transaction, get_transaction, get_transaction_by_id, set_status,
  updates_some, update_transaction_status,
}

-- The sessions that a lock and a number from the transactions' sequence leave.
abbrev pub with_lock : Lock → Session → Session
with_lock l s = record s { locked = s.locked ++ l ∷ [] }

abbrev pub with_number : Session → Session
with_number s = record s {
  sequences = record s.sequences { transactions = s.sequences.transactions + 1 };
}

statement_calm : {A : Type 0} (m : Exec A) (s : Session) → s.faults ≡ [] → statement m s ≡ m s
unfolding statement
statement_calm m s calm = simp calm

module _ (s : Session) (calm : s.faults ≡ []) where
  pub get_account_calm :
      (id : ℤ) {row : AccountRow}
      → account_with id s.db.accounts ≡ some row
      → get_account id s ≡ (ok (scan_account row), s)
  unfolding get_account
  get_account_calm id found = statement_calm _ s calm ∙ simp found

  pub get_account_for_update_calm :
      (id : ℤ) {row : AccountRow}
      → account_with id s.db.accounts ≡ some row
      → get_account_for_update id s ≡ (ok (scan_account row), with_lock (Lock.account id) s)
  unfolding get_account_for_update
  get_account_for_update_calm id found = statement_calm _ s calm ∙ simp found

  pub get_transaction_calm :
      (k : String) {x : Transaction}
      → transaction_with_key k s.db.transactions ≡ some x
      → get_transaction k s ≡ (ok x, s)
  unfolding get_transaction
  get_transaction_calm k found = statement_calm _ s calm ∙ simp found

  pub get_transaction_by_id_calm :
      (id : ℤ) {x : Transaction}
      → transaction_with_id id s.db.transactions ≡ some x
      → get_transaction_by_id id s ≡ (ok x, with_lock (Lock.transaction id) s)
  unfolding get_transaction_by_id
  get_transaction_by_id_calm id found = statement_calm _ s calm ∙ simp found

  pub create_transaction_taken :
      (x : Transaction) {prev : Transaction}
      → pos 0 <ℤ x.amount
      → transaction_with_key x.idempotency_key s.db.transactions ≡ some prev
      → create_transaction x s ≡ (err duplicate_key, with_number s)
  unfolding create_transaction
  create_transaction_taken x positive found = statement_calm _ s calm ∙ ground arith

-- The session that a changed status leaves.
abbrev pub with_new_status : ℤ → Status → Session → Session
with_new_status id status s = record s {
  db = record s.db { transactions = set_status id status s.db.transactions };
}

pub update_transaction_status_calm :
    (s : Session)
    → s.faults ≡ []
    → (id : ℤ) (status : Status) → updates_some id s.db.transactions ≡ true
    → update_transaction_status id status s ≡ (ok tt, with_new_status id status s)
unfolding update_transaction_status statement
update_transaction_status_calm s calm id status some_row = simp (calm, some_row)
