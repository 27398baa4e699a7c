-- ===== src/Service/Idempotency/Conflict.antt =====
-- An idempotency key that comes again with another amount.
use equilibra.Common.{◌≡◌, ◌≢◌, refl, sym, ap, ◌∙◌, subst, String, false, arith}
use equilibra.Common.Int.{ℤ, pos, ◌<ℤ◌, leb_ℤ, ==ℤ_iff}
use equilibra.Errors.{Error, ok, err, transactions_mismatch}
use equilibra.Storage.Schema.{Transaction}
use equilibra.Storage.Session.{Exec, Session}
use equilibra.Storage.Querier.{account_with}
use equilibra.Storage.Querier.Calm.{get_account_calm}
use equilibra.Storage.WithTx.{World, Conditions, open_session, rolled_back, with_tx}
use equilibra.Service.Types.{TransferParams, Result, compare_transactions}
use equilibra.Service.Core.Replay.{replay_outcome, replayed_session, transfer_taken}
use equilibra.Service.Operations
use equilibra.Service.Operations.{transfer_body}
use equilibra.Service.Operations.Inversion.{transfer_params}
use equilibra.Service.Requests.Inversion.{transfer-ok}
use equilibra.Service.Idempotency.{IsCalm, IsRepeatable, Succeeds-IsRepeatable, Succeeds-accounts}

-- Arguments that match a transaction have its amount; so other amounts do not match it.
other_amount :
    (p q : TransferParams) (prev : Transaction) {x : Result}
    → replay_outcome p prev ≡ ok x
    → p.amount ≢ q.amount
    → replay_outcome q prev ≡ err transactions_mismatch
unfolding compare_transactions
other_amount p q prev h apart =
    ground (arith, ==ℤ_iff p.amount prev.amount, ==ℤ_iff q.amount prev.amount)

-- A closure that fails, under calm conditions, is rolled back.
with_tx_calm_err :
    {A : Type 0} (c : Conditions) (body : Exec A) (w : World) {e : Error} {t : Session}
    → IsCalm c
    → body (open_session c w) ≡ (err e, t)
    → with_tx c body w ≡ (err e, rolled_back w t)
unfolding with_tx
with_tx_calm_err c body w calm run = simp (calm.begins, run, calm.commit)

not_positive_test : (amount : ℤ) → pos 0 <ℤ amount → leb_ℤ amount (pos 0) ≡ false
not_positive_test amount h = ground arith

conflict_whole :
    (c d : Conditions) (from to amount other : ℤ) (key : String) (w : World) (r : Result)
    (w' : World)
    → Operations.transfer c from to amount key w ≡ (ok r, w')
    → IsCalm d
    → pos 0 <ℤ other
    → amount ≢ other
    → Operations.transfer d from to other key w' ≡ (
      err transactions_mismatch,
      rolled_back w' (replayed_session (transfer_params from to other key) (open_session d w')),
    )
unfolding Operations.transfer transfer_body
conflict_whole c d from to amount other key w r w' h calm positive different =
    let (t, tested, apart, i, db) = transfer-ok c from to amount key w h in
    let p = transfer_params from to amount key in
    let q = transfer_params from to other key in
    let s = open_session d w' in
    let rep =
      subst (IsRepeatable p r) (sym db) (Succeeds-IsRepeatable p (open_session c w) r t i.done) in
    let accounts : w'.db.accounts ≡ w.db.accounts =
      ap (λ x. x.accounts) db ∙ Succeeds-accounts p (open_session c w) r t i.done in
    let run : transfer_body from to other key s
        ≡ (err transactions_mismatch, replayed_session q s) =
      rw
        (
          get_account_calm s calm.faults from (ap (account_with from) accounts ∙ i.source_found),
          get_account_calm s calm.faults to (ap (account_with to) accounts ∙ i.destination_found),
          i.source_user,
          i.destination_user,
          transfer_taken q s rep.source rep.destination rep.prev calm.faults rep.source_found
              rep.destination_found rep.same_currency positive rep.found,
          other_amount p q rep.prev rep.outcome different,
        )
        refl in
    rw (not_positive_test other positive, apart)
      (with_tx_calm_err d (transfer_body from to other key) w' calm run)

-- Once a transfer has succeeded, a transfer between the same accounts with the same key and
-- another positive amount, sent while nothing fails, is refused as a mismatch and changes no
-- table.
pub transfer_conflict :
    (c d : Conditions) (from to amount other : ℤ) (key : String) (w : World) (r : Result)
    (w' : World)
    → Operations.transfer c from to amount key w ≡ (ok r, w')
    → IsCalm d
    → pos 0 <ℤ other
    → amount ≢ other
    → ((Operations.transfer d from to other key w').0 ≡ err transactions_mismatch)
      × ((Operations.transfer d from to other key w').1.db ≡ w'.db)
transfer_conflict c d from to amount other key w r w' h calm positive different =
    let whole = conflict_whole c d from to amount other key w r w' h calm positive different in
    (ap (λ o. o.0) whole, ap (λ o. o.1.db) whole)
