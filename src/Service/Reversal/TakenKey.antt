-- ===== src/Service/Reversal/TakenKey.antt =====
-- A reversal whose idempotency key is already taken by a transaction with the same accounts and
-- amount: `transfer` answers from that transaction, and `Reverse` sets the status all the same.
use equilibra.Common.{
  ◌≡◌, refl, ap, String, true, false, ◌&&◌, List, [], some, str_eq, exists_of_find, find-test,
}
use equilibra.Common.Int.{ℤ, pos, ◌<ℤ◌, ◌==ℤ◌}
use equilibra.Errors.{ok}
use equilibra.Storage.Schema.{AccountRow, Transaction, Status, is_completed, is_reversal}
use equilibra.Storage.Session.{Session, Lock}
use equilibra.Storage.Querier.{
  account_with, transaction_with_id, transaction_with_key, set_status, updates_some,
}
use equilibra.Storage.Querier.Calm.{
  with_lock, get_transaction_by_id_calm, update_transaction_status_calm, with_new_status,
}
use equilibra.Storage.WithTx.{World, Conditions, open_session, committed}
use equilibra.Service.Types.{new_result, compare_transactions}
use equilibra.Service.Core.{new_transaction}
use equilibra.Service.Core.Replay.{replayed_session, transfer_taken}
use equilibra.Service.Operations
use equilibra.Service.Operations.{reverse_body}
use equilibra.Service.Operations.Inversion.{reverse_params}
use equilibra.Service.Idempotency.{IsCalm, with_tx_calm}

-- The tables at a reversal of the completed transaction `tx`, no reversal itself, under a key that
-- `prev` has, where `prev` already moved the same amount the way the reversal would.
pub record TakenKey (id : ℤ) (key : String) (w : World) (prev : Transaction) : Type 0 where
  pub tx : Transaction
  pub source : AccountRow
  pub destination : AccountRow
  pub found : transaction_with_id id w.db.transactions ≡ some tx
  pub completed : is_completed tx.status ≡ true
  pub plain : is_reversal tx.type ≡ false
  pub source_found : account_with tx.destination_id w.db.accounts ≡ some source
  pub destination_found : account_with tx.source_id w.db.accounts ≡ some destination
  pub same_currency : str_eq source.currency destination.currency ≡ true
  pub positive : pos 0 <ℤ tx.amount
  pub taken : transaction_with_key key w.db.transactions ≡ some prev
  pub matches : compare_transactions (new_transaction (reverse_params tx key)) prev ≡ true

updates_found :
    (id : ℤ) (ts : List Transaction) {tx : Transaction}
    → transaction_with_id id ts ≡ some tx
    → is_completed tx.status ≡ true
    → updates_some id ts ≡ true
unfolding updates_some transaction_with_id
updates_found id ts {tx} found completed =
    exists_of_find (λ t. t.id ==ℤ id) (λ t. (t.id ==ℤ id) && is_completed t.status) ts found
      (rw (find-test (λ t. t.id ==ℤ id) ts found, completed) refl)

module _ (id : ℤ) (key : String) (w : World) (prev : Transaction) (k : TakenKey id key w prev) where
  -- The session that the closure ends in.
  abbrev ended : Conditions → Session
  ended d = with_new_status id Status.reversed (
      replayed_session (reverse_params k.tx key)
        (with_lock (Lock.transaction id) (open_session d w)))

  reverse_body_taken :
      (d : Conditions)
      → d.faults ≡ []
      → reverse_body id key (open_session d w)
        ≡ (ok (record (new_result prev) { replayed = true }), ended d)
  unfolding reverse_body
  reverse_body_taken d calm =
      let s = open_session d w in
      let p = reverse_params k.tx key in
      let s1 = with_lock (Lock.transaction id) s in
      rw
        (
          get_transaction_by_id_calm s calm id k.found,
          k.completed,
          k.plain,
          transfer_taken p s1 k.source k.destination prev calm k.source_found k.destination_found
              k.same_currency k.positive k.taken,
          k.matches,
          update_transaction_status_calm (replayed_session p s1) calm id Status.reversed
              (updates_found id w.db.transactions k.found k.completed),
        )
        refl

  reverse_taken_whole :
      (d : Conditions)
      → IsCalm d
      → Operations.reverse d id key w
        ≡ (ok (record (new_result prev) { replayed = true }), committed (ended d))
  unfolding Operations.reverse
  reverse_taken_whole d calm =
      with_tx_calm d (reverse_body id key) w calm (reverse_body_taken d calm.faults)

  -- While nothing fails, a reversal of a completed transaction that is no reversal itself, of a positive
  -- amount between two accounts of one currency, under a key that is taken by a transaction with the
  -- swapped accounts and the same amount succeeds with that transaction's result, posts no entry and
  -- no event, and sets the status of the transaction to reversed.
  pub reverse_taken :
      (d : Conditions)
      → IsCalm d
      → let (o, w') = Operations.reverse d id key w in
        (o ≡ ok (record (new_result prev) { replayed = true }))
        × (w'.db.entries ≡ w.db.entries)
        × (w'.db.outbox ≡ w.db.outbox)
        × (w'.db.transactions ≡ set_status id Status.reversed w.db.transactions)
  reverse_taken d calm =
      let e = reverse_taken_whole d calm in
      (
        ap (λ x. x.0) e,
        ap (λ x. x.1.db.entries) e,
        ap (λ x. x.1.db.outbox) e,
        ap (λ x. x.1.db.transactions) e,
      )
