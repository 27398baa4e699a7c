-- ===== src/Service/Atomicity.antt =====
-- A request that fails changes no table, unless its commit was applied and the answer lost.
use equilibra.Common.{◌≡◌, refl, sym, ap, Bool, true, false, ◌⊎◌, inl, inr, if◌then◌else◌}
use equilibra.Common.Int.{pos, leb_ℤ, ◌==ℤ◌}
use equilibra.Errors.{Error, Outcome, ok, err, invalid_amount, same_account}
use equilibra.Storage.Session.{Exec, Session}
use equilibra.Storage.WithTx.{World, Conditions, Commit, with_tx, run_tx, finish, open_session}
use equilibra.Service.Types.{Result}
use equilibra.Service.Operations
use equilibra.Service.Operations.{transfer_body, deposit_body, withdraw_body, reverse_body}
use equilibra.Service.Requests.{Request, handle}

-- The same conditions with the commit acknowledged.
abbrev pub heard : Conditions → Conditions
heard c = record c { commit = Commit.acknowledged }

-- How a failed request can leave the world, where `run` is the request under given conditions.
abbrev pub FailsClean :
    (Conditions → World → Outcome Result × World) → Conditions → World → World → Type 0
FailsClean run c w w' =
    (w'.db ≡ w.db)
    ⊎ ((c.commit ≡ Commit.applied_unheard) × ((r : Result) × (run (heard c) w ≡ (ok r, w'))))

finish-FailsClean :
    (c : Conditions) (m : Commit) (w w' : World) (o : Outcome Result × Session) {e : Error}
    → c.commit ≡ m
    → finish m w o ≡ (err e, w')
    → (w'.db ≡ w.db)
      ⊎ ((c.commit ≡ Commit.applied_unheard)
          × ((r : Result) × (finish Commit.acknowledged w o ≡ (ok r, w'))))
finish-FailsClean c Commit.acknowledged w w' (ok r, t) is h = cc
finish-FailsClean c Commit.refused w w' (ok r, t) is h = inl (ap (λ x. x.1.db) (sym h))
finish-FailsClean c Commit.applied_unheard w w' (ok r, t) is h =
    inr (is, (r, λ i. (ok r, ap (λ x. x.1) h i)))
finish-FailsClean c Commit.acknowledged w w' (err x, t) is h = inl (ap (λ x. x.1.db) (sym h))
finish-FailsClean c Commit.refused w w' (err x, t) is h = inl (ap (λ x. x.1.db) (sym h))
finish-FailsClean c Commit.applied_unheard w w' (err x, t) is h = inl (ap (λ x. x.1.db) (sym h))

run_tx-FailsClean :
    (b : Bool) (c : Conditions) (body : Exec Result) (w w' : World) {e : Error}
    → run_tx b c body w ≡ (err e, w')
    → FailsClean (λ d v. run_tx b d body v) c w w'
run_tx-FailsClean true c body w w' h =
    finish-FailsClean c c.commit w w' (body (open_session c w)) refl h
run_tx-FailsClean false c body w w' h = inl (ap (λ x. x.1.db) (sym h))

with_tx-FailsClean :
    (c : Conditions) (body : Exec Result) (w w' : World) {e : Error}
    → with_tx c body w ≡ (err e, w')
    → FailsClean (λ d v. with_tx d body v) c w w'
unfolding with_tx
with_tx-FailsClean c body w w' h = run_tx-FailsClean c.begins c body w w' h

guarded-FailsClean :
    (b : Bool) (x : Error) (run : Conditions → World → Outcome Result × World) (c : Conditions)
    (w w' : World) {e : Error}
    → (run c w ≡ (err e, w') → FailsClean run c w w')
    → (if b then (err x, w) else run c w) ≡ (err e, w')
    → FailsClean (λ d v. if b then (err x, v) else run d v) c w w'
guarded-FailsClean true x run c w w' k h = inl (ap (λ y. y.1.db) (sym h))
guarded-FailsClean false x run c w w' k h = k h

-- A request that fails leaves every table as it was; or its commit was applied without the answer
-- arriving, and then the result is that of the same request with the commit acknowledged.
pub handle-FailsClean :
    (c : Conditions) (q : Request) (w w' : World) (e : Error)
    → handle c q w ≡ (err e, w')
    → FailsClean (λ d v. handle d q v) c w w'
unfolding handle Operations.transfer Operations.deposit Operations.withdraw Operations.reverse
handle-FailsClean c (Request.transfer from to amount key) w w' e h =
    let run = λ (d : Conditions) (v : World). with_tx d (transfer_body from to amount key) v in
    let inner =
      λ (d : Conditions) (v : World). if from ==ℤ to then (err same_account, v) else run d v in
    guarded-FailsClean (leb_ℤ amount (pos 0)) invalid_amount inner c w w'
      (guarded-FailsClean (from ==ℤ to) same_account run c w w'
        (with_tx-FailsClean c (transfer_body from to amount key) w w'))
      h
handle-FailsClean c (Request.deposit to amount source key) w w' e h =
    guarded-FailsClean (leb_ℤ amount (pos 0)) invalid_amount
      (λ d v. with_tx d (deposit_body to amount source key) v) c w w'
      (with_tx-FailsClean c (deposit_body to amount source key) w w') h
handle-FailsClean c (Request.withdraw from amount destination key) w w' e h =
    guarded-FailsClean (leb_ℤ amount (pos 0)) invalid_amount
      (λ d v. with_tx d (withdraw_body from amount destination key) v) c w w'
      (with_tx-FailsClean c (withdraw_body from amount destination key) w w') h
handle-FailsClean c (Request.reverse id key) w w' e h =
    with_tx-FailsClean c (reverse_body id key) w w' h
