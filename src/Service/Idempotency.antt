-- ===== src/Service/Idempotency.antt =====
-- A request that is sent again with its key.
pub mod Conflict
use text.Mathlib.TextPositions.{eq_refl}
use equilibra.Common.{
  ◌≡◌, refl, sym, ap, ◌∙◌, subst, String, true, false, List, [], ◌∷◌, ◌++◌, none, some, arith, inl,
  inr, str_eq, some_injective, find-append, find,
}
use equilibra.Common.Int.{ℤ, pos, leb_ℤ, ◌<ℤ◌, ==ℤ_refl}
use equilibra.Errors.{ok}
use equilibra.Storage.Schema.{AccountRow, Transaction, is_user}
use equilibra.Storage.Session.{Db, Session, Exec}
use equilibra.Storage.Querier.{account_with, transaction_with_key}
use equilibra.Storage.Querier.Calm.{get_account_calm}
use equilibra.Storage.WithTx.{World, Conditions, Commit, with_tx, open_session, committed}
use equilibra.Service.Types.{TransferParams, Result, compare_transactions}
use equilibra.Service.Core.{new_transaction}
use equilibra.Service.Core.Inversion.{Succeeds}
use equilibra.Service.Core.Replay.{replay_outcome, replayed_session, transfer_taken}
use equilibra.Service.Operations
use equilibra.Service.Operations.{transfer_body}
use equilibra.Service.Operations.Inversion.{transfer_params}
use equilibra.Service.Requests.Inversion.{transfer-ok}

-- Nothing fails: the transaction begins, no statement fails, and the commit is acknowledged.
pub record IsCalm (c : Conditions) : Type 0 where
  pub begins : c.begins ≡ true
  pub faults : c.faults ≡ []
  pub commit : c.commit ≡ Commit.acknowledged

-- What a success with the parameters `p` leaves for a later call with the same parameters.
pub record IsRepeatable (p : TransferParams) (r : Result) (db : Db) : Type 0 where
  pub source : AccountRow
  pub destination : AccountRow
  pub source_found : account_with p.from db.accounts ≡ some source
  pub destination_found : account_with p.to db.accounts ≡ some destination
  pub same_currency : str_eq source.currency destination.currency ≡ true
  pub prev : Transaction
  pub found : transaction_with_key p.idempotency_key db.transactions ≡ some prev
  pub outcome : replay_outcome p prev ≡ ok (record r { replayed = true })

found_new :
    (k : String) (ts : List Transaction) (x : Transaction)
    → transaction_with_key k ts ≡ none
    → x.idempotency_key ≡ k
    → transaction_with_key k (ts ++ x ∷ []) ≡ some x
unfolding transaction_with_key
found_new k ts x fresh same =
    find-append (λ t. str_eq t.idempotency_key k) ts (x ∷ [])
    ∙ rw fresh (unfold find in rw (same, eq_refl))

compare_refl :
    (p : TransferParams) (x : Transaction)
    → x.source_id ≡ p.from
    → x.destination_id ≡ p.to
    → x.amount ≡ p.amount
    → compare_transactions (new_transaction p) x ≡ true
unfolding compare_transactions
compare_refl p x a b c = simp (a, b, c, ==ℤ_refl)

pub Succeeds-IsRepeatable :
    (p : TransferParams) (s : Session) (r : Result) (t : Session)
    → Succeeds p s r t
    → IsRepeatable p r t.db
Succeeds-IsRepeatable p s r t (inl i) = record {
  source = i.source;
  destination = i.destination;
  source_found = rw i.db i.source_found;
  destination_found = rw i.db i.destination_found;
  same_currency = i.same_currency;
  prev = i.created;
  found = rw i.db (found_new p.idempotency_key s.db.transactions i.created i.fresh (cc i.row));
  outcome = rw (compare_refl p i.created (cc i.row) (cc i.row) (cc i.row), i.result);
}
Succeeds-IsRepeatable p s r t (inr i) = record {
  source = i.source;
  destination = i.destination;
  source_found = rw i.db i.source_found;
  destination_found = rw i.db i.destination_found;
  same_currency = i.same_currency;
  prev = i.prev;
  found = rw i.db i.found;
  outcome = rw (i.matches, i.result);
}

Succeeds-accounts :
    (p : TransferParams) (s : Session) (r : Result) (t : Session)
    → Succeeds p s r t
    → t.db.accounts ≡ s.db.accounts
Succeeds-accounts p s r t (inl i) = ap (λ d. d.accounts) i.db
Succeeds-accounts p s r t (inr i) = ap (λ d. d.accounts) i.db

-- The type of a row that is found twice.
same_type :
    (id : ℤ) (rows : List AccountRow) {a b : AccountRow}
    → account_with id rows ≡ some a
    → account_with id rows ≡ some b
    → is_user a.type ≡ true
    → is_user b.type ≡ true
same_type id rows fa fb h =
    subst (λ (x : AccountRow). is_user x.type ≡ true) (some_injective (sym fa ∙ fb)) h

-- A closure that succeeds, under calm conditions, is committed.
pub with_tx_calm :
    {A : Type 0} (c : Conditions) (body : Exec A) (w : World) {a : A} {t : Session}
    → IsCalm c
    → body (open_session c w) ≡ (ok a, t)
    → with_tx c body w ≡ (ok a, committed t)
unfolding with_tx
with_tx_calm c body w calm run = simp (calm.begins, run, calm.commit)

module _ (from to amount : ℤ) (key : String) (s : Session) (calm : s.faults ≡ []) where
  transfer_body_repeat :
      (r : Result)
      → IsRepeatable (transfer_params from to amount key) r s.db
      → (source destination : AccountRow) → account_with from s.db.accounts ≡ some source
      → account_with to s.db.accounts ≡ some destination
      → is_user source.type ≡ true
      → is_user destination.type ≡ true
      → pos 0 <ℤ amount
      → transfer_body from to amount key s ≡ (
        ok (record r { replayed = true }),
        replayed_session (transfer_params from to amount key) s,
      )
  unfolding transfer_body
  transfer_body_repeat r rep source destination f1 f2 u1 u2 positive =
      let p = transfer_params from to amount key in
      rw
        (
          get_account_calm s calm from f1,
          get_account_calm s calm to f2,
          u1,
          u2,
          transfer_taken p s rep.source rep.destination rep.prev calm rep.source_found
              rep.destination_found rep.same_currency positive rep.found,
          rep.outcome,
        )
        refl

pub positive_of : (amount : ℤ) → leb_ℤ amount (pos 0) ≡ false → pos 0 <ℤ amount
positive_of amount h = ground arith

-- The second run, with the world that it leaves.
transfer_again :
    (c d : Conditions) (from to amount : ℤ) (key : String) (w : World) (r : Result) (w' : World)
    → Operations.transfer c from to amount key w ≡ (ok r, w')
    → IsCalm d
    → Operations.transfer d from to amount key w' ≡ (
      ok (record r { replayed = true }),
      committed (replayed_session (transfer_params from to amount key) (open_session d w')),
    )
unfolding Operations.transfer
transfer_again c d from to amount key w r w' h calm =
    let (t, tested, apart, i, db) = transfer-ok c from to amount key w h in
    let p = transfer_params from to amount key in
    let accounts : w'.db.accounts ≡ w.db.accounts =
      ap (λ x. x.accounts) db ∙ Succeeds-accounts p (open_session c w) r t i.done in
    let run =
      transfer_body_repeat from to amount key (open_session d w') calm.faults r
        (subst (IsRepeatable p r) (sym db) (Succeeds-IsRepeatable p (open_session c w) r t i.done))
        i.source i.destination (rw accounts i.source_found) (rw accounts i.destination_found)
        i.source_user i.destination_user (positive_of amount tested) in
    rw (tested, apart) (with_tx_calm d (transfer_body from to amount key) w' calm run)

-- A transfer that succeeded, sent again with the same arguments and key while nothing fails,
-- answers with the same result marked as replayed, and changes no table.
pub transfer_retry :
    (c d : Conditions) (from to amount : ℤ) (key : String) (w : World) (r : Result) (w' : World)
    → Operations.transfer c from to amount key w ≡ (ok r, w')
    → IsCalm d
    → ((Operations.transfer d from to amount key w').0 ≡ ok (record r { replayed = true }))
      × ((Operations.transfer d from to amount key w').1.db ≡ w'.db)
transfer_retry c d from to amount key w r w' h calm =
    let again = transfer_again c d from to amount key w r w' h calm in
    (ap (λ o. o.0) again, ap (λ o. o.1.db) again)
