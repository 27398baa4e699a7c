-- ===== src/Service/Requests/Induction.antt =====
-- A predicate of the tables that a posting and a change of status keep holds after any requests.
use equilibra.Common.{
  ◌≡◌, sym, subst, String, Bool, true, false, List, [], ◌∷◌, some, All, find-All, inl, inr,
  if◌then◌else◌,
}
use equilibra.Common.Int.{ℤ, pos, leb_ℤ, IsInt64, ◌==ℤ◌}
use equilibra.Errors.{Error, Outcome, ok, err}
use equilibra.Storage.Schema.{Transaction, TxType, Status}
use equilibra.Storage.Session.{Db, Session, Exec}
use equilibra.Storage.Querier.{set_status, transaction_with_id}
use equilibra.Storage.WithTx.{World, Conditions, with_tx}
use equilibra.Storage.WithTx.Inversion.{Leaves, unchanged, ran, with_tx-Leaves}
use equilibra.Service.Types.{TransferParams, Result}
use equilibra.Service.Core.Inversion.{IsPosted, Succeeds}
use equilibra.Service.Operations
use equilibra.Service.Operations.{transfer_body, deposit_body, withdraw_body, reverse_body}
use equilibra.Service.Operations.Inversion.{
  transfer_body-ok, deposit_body-ok, withdraw_body-ok, reverse_body-ok, reverse_params, Reversed,
  deposit_params, withdraw_params, transfer_params,
}
use equilibra.Service.Requests.{Request, handle, serve, IsTyped, AllTyped, AllOfType, request_type}

-- The tables with one status set.
abbrev pub with_status : ℤ → Db → Db
with_status id db = record db { transactions = set_status id Status.reversed db.transactions }

-- `P` is kept by every posting of an allowed type, and by a change of status.
pub record Keeps (T : TxType → Type 0) (P : Db → Type 0) : Type 0 where
  pub post :
      (p : TransferParams) (s : Session) (r : Result) (t : Session)
      → T p.type
      → IsInt64 p.amount
      → IsPosted p s r t
      → P s.db
      → P t.db
  pub status : (id : ℤ) (db : Db) → P db → P (with_status id db)
  pub stored : (db : Db) → P db → All (λ t. IsInt64 t.amount) db.transactions

-- The stored amount of a transaction that is found.
pub found_amount :
    (id : ℤ) (ts : List Transaction) {tx : Transaction}
    → All (λ t. IsInt64 t.amount) ts
    → transaction_with_id id ts ≡ some tx
    → IsInt64 tx.amount
unfolding transaction_with_id
found_amount id ts h e = find-All (λ t. IsInt64 t.amount) (λ t. t.id ==ℤ id) ts h e

module _ {T : TxType → Type 0} {P : Db → Type 0} (keeps : Keeps T P) where
  pub Succeeds-keeps :
      (p : TransferParams) (s : Session) (r : Result) (t : Session)
      → T p.type
      → IsInt64 p.amount
      → Succeeds p s r t
      → P s.db
      → P t.db
  Succeeds-keeps p s r t allowed typed (inl i) h = keeps.post p s r t allowed typed i h
  Succeeds-keeps p s r t allowed typed (inr i) h = subst P (sym i.db) h

  Reversed-keeps :
      (id : ℤ) (key : String) (s : Session) (r : Result) (t : Session)
      → T TxType.reversal
      → Reversed id key s r t
      → P s.db
      → P t.db
  Reversed-keeps id key s r t allowed i h =
      let typed = found_amount id s.db.transactions (keeps.stored s.db h) i.found in
      subst P (sym i.status.db) (
        keeps.status id i.middle.db
          (Succeeds-keeps (reverse_params i.tx key) s r i.middle allowed typed i.done h))

  Leaves-keeps :
      {A : Type 0} (c : Conditions) (body : Exec A) (w w' : World)
      → ((s : Session) (a : A) (t : Session) → body s ≡ (ok a, t) → P s.db → P t.db)
      → Leaves c body w w'
      → P w.db
      → P w'.db
  Leaves-keeps c body w w' step (unchanged e) h = subst P (sym e) h
  Leaves-keeps c body w w' step (ran a t e d) h = subst P (sym d) (step _ a t e h)

  tx-keeps :
      {A : Type 0} (c : Conditions) (body : Exec A) (w : World)
      → ((s : Session) (a : A) (t : Session) → body s ≡ (ok a, t) → P s.db → P t.db)
      → P w.db
      → P (with_tx c body w).1.db
  tx-keeps c body w step h =
      Leaves-keeps c body w (with_tx c body w).1 step (with_tx-Leaves c body w) h

  guarded-keeps :
      (b : Bool) (e : Error) (o : Outcome Result × World) (w : World)
      → P w.db
      → P o.1.db
      → P (if b then (err e, w) else o).1.db
  guarded-keeps true e o w h k = h
  guarded-keeps false e o w h k = k

  -- One request keeps the predicate, whatever its outcome.
  pub handle-keeps :
      (c : Conditions) (q : Request) (w : World)
      → T (request_type q)
      → IsTyped q
      → P w.db
      → P (handle c q w).1.db
  unfolding handle Operations.transfer Operations.deposit Operations.withdraw Operations.reverse
  handle-keeps c (Request.transfer from to amount key) w allowed typed h =
      guarded-keeps (leb_ℤ amount (pos 0)) _ _ w h (
        guarded-keeps (from ==ℤ to) _ _ w h (
          tx-keeps c (transfer_body from to amount key) w
            (λ s r t e.
              Succeeds-keeps (transfer_params from to amount key) s r t allowed typed
                (transfer_body-ok from to amount key s e).done)
            h))
  handle-keeps c (Request.deposit to amount source key) w allowed typed h =
      guarded-keeps (leb_ℤ amount (pos 0)) _ _ w h (
        tx-keeps c (deposit_body to amount source key) w
          (λ s r t e.
            let d = deposit_body-ok to amount source key s e in
            Succeeds-keeps (deposit_params d.sys_account.id to amount key) s r t allowed typed
              d.done)
          h)
  handle-keeps c (Request.withdraw from amount destination key) w allowed typed h =
      guarded-keeps (leb_ℤ amount (pos 0)) _ _ w h (
        tx-keeps c (withdraw_body from amount destination key) w
          (λ s r t e.
            let d = withdraw_body-ok from amount destination key s e in
            Succeeds-keeps (withdraw_params from d.sys_account.id amount key) s r t allowed typed
              d.done)
          h)
  handle-keeps c (Request.reverse id key) w allowed typed h =
      tx-keeps c (reverse_body id key) w
        (λ s r t e. Reversed-keeps id key s r t allowed (reverse_body-ok id key s e)) h

  -- So do any requests, in any order, whatever fails.
  pub serve-keeps :
      (qs : List (Conditions × Request)) (w : World)
      → AllOfType T qs
      → AllTyped qs
      → P w.db
      → P (serve qs w).db
  unfolding serve
  serve-keeps [] w allowed typed h = h
  serve-keeps ((c, q) ∷ rest) w allowed typed h =
      serve-keeps rest (handle c q w).1 allowed.1 typed.1 (handle-keeps c q w allowed.0 typed.0 h)
