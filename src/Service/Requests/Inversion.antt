-- ===== src/Service/Requests/Inversion.antt =====
-- What lies behind a request that succeeded: one run of the core on the tables as they were.
use equilibra.Common.{◌≡◌, refl, ap, ◌∙◌, String, Bool, true, false, All, if◌then◌else◌}
use equilibra.Common.Int.{ℤ, pos, leb_ℤ, IsInt64, ◌==ℤ◌}
use equilibra.Errors.{Error, Outcome, ok, err, invalid_amount, same_account}
use equilibra.Storage.Schema.{Transaction}
use equilibra.Storage.Session.{Session}
use equilibra.Storage.WithTx.{World, Conditions, open_session}
use equilibra.Storage.WithTx.Inversion.{with_tx-ok}
use equilibra.Service.Types.{TransferParams, Result}
use equilibra.Service.Core.Inversion.{Succeeds}
use equilibra.Service.Operations
use equilibra.Service.Operations.{transfer_body, deposit_body, withdraw_body, reverse_body}
use equilibra.Service.Operations.Inversion.{
  transfer_body-ok, deposit_body-ok, withdraw_body-ok, reverse_body-ok, Transferred, Deposited,
  Withdrawn, Reversed, transfer_params, deposit_params, withdraw_params, reverse_params,
}
use equilibra.Service.Requests.{Request, handle, IsTyped, request_type}
use equilibra.Service.Requests.Induction.{found_amount}

-- A test that did not stop the call.
pub passed_test :
    {A : Type 0} (b : Bool) (e : Error) (o : Outcome A × World) (w : World) {a : A} {w' : World}
    → (if b then (err e, w) else o) ≡ (ok a, w')
    → (b ≡ false) × (o ≡ (ok a, w'))
passed_test true e o w h = cc
passed_test false e o w h = (refl, h)

pub transfer-ok :
    (c : Conditions) (from to amount : ℤ) (key : String) (w : World) {r : Result} {w' : World}
    → Operations.transfer c from to amount key w ≡ (ok r, w')
    → (t : Session) × (leb_ℤ amount (pos 0) ≡ false)
      × ((from ==ℤ to) ≡ false)
      × Transferred from to amount key (open_session c w) r t
      × (w'.db ≡ t.db)
unfolding Operations.transfer
transfer-ok c from to amount key w h =
    let (positive, h1) = passed_test (leb_ℤ amount (pos 0)) invalid_amount _ w h in
    let (apart, h2) = passed_test (from ==ℤ to) same_account _ w h1 in
    let (t, run, done) = with_tx-ok c (transfer_body from to amount key) w h2 in
    (
      t,
      positive,
      apart,
      transfer_body-ok from to amount key (open_session c w) run,
      ap (λ v. v.db) done,
    )

pub deposit-ok :
    (c : Conditions) (to amount : ℤ) (place key : String) (w : World) {r : Result} {w' : World}
    → Operations.deposit c to amount place key w ≡ (ok r, w')
    → (t : Session) × (leb_ℤ amount (pos 0) ≡ false)
      × Deposited to amount place key (open_session c w) r t
      × (w'.db ≡ t.db)
unfolding Operations.deposit
deposit-ok c to amount place key w h =
    let (positive, h1) = passed_test (leb_ℤ amount (pos 0)) invalid_amount _ w h in
    let (t, run, done) = with_tx-ok c (deposit_body to amount place key) w h1 in
    (t, positive, deposit_body-ok to amount place key (open_session c w) run, ap (λ v. v.db) done)

pub withdraw-ok :
    (c : Conditions) (from amount : ℤ) (place key : String) (w : World) {r : Result} {w' : World}
    → Operations.withdraw c from amount place key w ≡ (ok r, w')
    → (t : Session) × (leb_ℤ amount (pos 0) ≡ false)
      × Withdrawn from amount place key (open_session c w) r t
      × (w'.db ≡ t.db)
unfolding Operations.withdraw
withdraw-ok c from amount place key w h =
    let (positive, h1) = passed_test (leb_ℤ amount (pos 0)) invalid_amount _ w h in
    let (t, run, done) = with_tx-ok c (withdraw_body from amount place key) w h1 in
    (
      t,
      positive,
      withdraw_body-ok from amount place key (open_session c w) run,
      ap (λ v. v.db) done,
    )

pub reverse-ok :
    (c : Conditions) (id : ℤ) (key : String) (w : World) {r : Result} {w' : World}
    → Operations.reverse c id key w ≡ (ok r, w')
    → (t : Session) × Reversed id key (open_session c w) r t × (w'.db ≡ t.db)
unfolding Operations.reverse
reverse-ok c id key w h =
    let (t, run, done) = with_tx-ok c (reverse_body id key) w h in
    (t, reverse_body-ok id key (open_session c w) run, ap (λ v. v.db) done)

-- The run of the core behind a request.
pub record CoreRan (q : Request) (w : World) (r : Result) (w' : World) : Type 0 where
  pub params : TransferParams
  pub start : Session
  pub final : Session
  pub started : start.db ≡ w.db
  pub done : Succeeds params start r final
  pub entries : w'.db.entries ≡ final.db.entries
  pub outbox : w'.db.outbox ≡ final.db.outbox
  pub type : params.type ≡ request_type q
  pub typed : IsInt64 params.amount

pub handle-CoreRan :
    (c : Conditions) (q : Request) (w : World) {r : Result} {w' : World}
    → IsTyped q
    → All (λ (t : Transaction). IsInt64 t.amount) w.db.transactions
    → handle c q w ≡ (ok r, w')
    → CoreRan q w r w'
unfolding handle
handle-CoreRan c (Request.transfer from to amount key) w typed stored h =
    let (t, positive, apart, i, db) = transfer-ok c from to amount key w h in
    record {
      params = transfer_params from to amount key;
      start = open_session c w;
      final = t;
      started = refl;
      done = i.done;
      entries = ap (λ d. d.entries) db;
      outbox = ap (λ d. d.outbox) db;
      type = refl;
      typed = typed;
    }
handle-CoreRan c (Request.deposit to amount place key) w typed stored h =
    let (t, positive, i, db) = deposit-ok c to amount place key w h in
    record {
      params = deposit_params i.sys_account.id to amount key;
      start = open_session c w;
      final = t;
      started = refl;
      done = i.done;
      entries = ap (λ d. d.entries) db;
      outbox = ap (λ d. d.outbox) db;
      type = refl;
      typed = typed;
    }
handle-CoreRan c (Request.withdraw from amount place key) w typed stored h =
    let (t, positive, i, db) = withdraw-ok c from amount place key w h in
    record {
      params = withdraw_params from i.sys_account.id amount key;
      start = open_session c w;
      final = t;
      started = refl;
      done = i.done;
      entries = ap (λ d. d.entries) db;
      outbox = ap (λ d. d.outbox) db;
      type = refl;
      typed = typed;
    }
handle-CoreRan c (Request.reverse id key) w typed stored h =
    let (t, i, db) = reverse-ok c id key w h in
    record {
      params = reverse_params i.tx key;
      start = open_session c w;
      final = i.middle;
      started = refl;
      done = i.done;
      entries = ap (λ d. d.entries) (db ∙ i.status.db);
      outbox = ap (λ d. d.outbox) (db ∙ i.status.db);
      type = refl;
      typed = found_amount id w.db.transactions stored i.found;
    }
