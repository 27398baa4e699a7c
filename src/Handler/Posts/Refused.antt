-- ===== src/Handler/Posts/Refused.antt =====
-- A POST request that is answered with a client error changes no table.
use equilibra.Common.{
  ◌≡◌, refl, subst, ◌≤◌, ◌<◌, Bool, true, false, ◌⊎◌, inl, inr, String, Option, arith,
  if◌then◌else◌,
}
use equilibra.Common.Int.{ℤ, pos, leb_ℤ, ◌==ℤ◌}
use equilibra.Errors.{Error, Outcome, ok, err, driver, invalid_amount, same_account}
use equilibra.Storage.Session.{Exec, Session}
use equilibra.Storage.WithTx.{World, Conditions, Commit, with_tx, run_tx, finish, open_session}
use equilibra.Service.Types.{Result}
use equilibra.Service.Operations
use equilibra.Service.Operations.{transfer_body, deposit_body, withdraw_body, reverse_body}
use equilibra.Service.Requests.{Request, handle}
use equilibra.Handler.Responses.{Response, handle_error, write_transaction}
use equilibra.Handler.Handlers.{answered, answer}
use equilibra.Handler.Posts.{Post, handle_post, IsTypedPost}
use equilibra.Handler.Posts.Rule.{Admits, handle_post-rule}

-- A failure other than the driver's leaves the tables.
abbrev LeavesTables : World → Outcome Result × World → Type 0
LeavesTables w (ok r, w') = Unit
LeavesTables w (err e, w') = (w'.db ≡ w.db) ⊎ (e ≡ driver)

finish-LeavesTables :
    (m : Commit) (w : World) (o : Outcome Result × Session) → LeavesTables w (finish m w o)
finish-LeavesTables Commit.acknowledged w (ok r, t) = tt
finish-LeavesTables Commit.refused w (ok r, t) = inl refl
finish-LeavesTables Commit.applied_unheard w (ok r, t) = inr refl
finish-LeavesTables Commit.acknowledged w (err x, t) = inl refl
finish-LeavesTables Commit.refused w (err x, t) = inl refl
finish-LeavesTables Commit.applied_unheard w (err x, t) = inl refl

run_tx-LeavesTables :
    (b : Bool) (c : Conditions) (body : Exec Result) (w : World)
    → LeavesTables w (run_tx b c body w)
run_tx-LeavesTables true c body w = finish-LeavesTables c.commit w (body (open_session c w))
run_tx-LeavesTables false c body w = inl refl

with_tx-LeavesTables :
    (c : Conditions) (body : Exec Result) (w : World) → LeavesTables w (with_tx c body w)
unfolding with_tx
with_tx-LeavesTables c body w = run_tx-LeavesTables c.begins c body w

guarded-LeavesTables :
    (b : Bool) (x : Error) (w : World) (run : Outcome Result × World)
    → LeavesTables w run
    → LeavesTables w (if b then (err x, w) else run)
guarded-LeavesTables true x w run h = inl refl
guarded-LeavesTables false x w run h = h

handle-LeavesTables : (c : Conditions) (q : Request) (w : World) → LeavesTables w (handle c q w)
unfolding handle Operations.transfer Operations.deposit Operations.withdraw Operations.reverse
handle-LeavesTables c (Request.transfer from to amount key) w =
    guarded-LeavesTables (leb_ℤ amount (pos 0)) invalid_amount w _ (
      guarded-LeavesTables (from ==ℤ to) same_account w _
        (with_tx-LeavesTables c (transfer_body from to amount key) w))
handle-LeavesTables c (Request.deposit to amount source key) w =
    guarded-LeavesTables (leb_ℤ amount (pos 0)) invalid_amount w _
      (with_tx-LeavesTables c (deposit_body to amount source key) w)
handle-LeavesTables c (Request.withdraw from amount destination key) w =
    guarded-LeavesTables (leb_ℤ amount (pos 0)) invalid_amount w _
      (with_tx-LeavesTables c (withdraw_body from amount destination key) w)
handle-LeavesTables c (Request.reverse id key) w = with_tx-LeavesTables c (reverse_body id key) w

abbrev LeavesRefused : World → Response × World → Type 0
LeavesRefused w (x, w') = 400 ≤ x.status → x.status < 500 → w'.db ≡ w.db

LeavesRefused-Admits : (w : World) → Admits w (LeavesRefused w)
LeavesRefused-Admits w = record { bad = λ x e l u. refl; missing = λ x e l u. refl }

answered-LeavesRefused :
    (w : World) (o : Outcome Result × World) → LeavesTables w o → LeavesRefused w (answered o)
unfolding answer write_transaction handle_error
answered-LeavesRefused w (ok r, w') h l u = absurd (ground arith)
answered-LeavesRefused w (err e, w') (inl same) l u = same
answered-LeavesRefused w (err e, w') (inr is) l u =
    let same_number : 500 < 500 = subst (λ x. (handle_error x).status < 500) is u in
    absurd (omega (arith, same_number))

-- A transfer, deposit, withdrawal or reversal request with int64 amounts that is answered with a
-- status from 400 to 499 leaves every table as it was, whatever faults and commit it meets.
pub handle_post-refused :
    (parse_int : String → Option ℤ) (c : Conditions) (p : Post) (w : World) (x : Response)
    (w' : World)
    → IsTypedPost p
    → handle_post parse_int c p w ≡ (x, w')
    → 400 ≤ x.status
    → x.status < 500
    → w'.db ≡ w.db
handle_post-refused parse_int c p w x w' typed h = subst (LeavesRefused w) h (
    handle_post-rule w (LeavesRefused w) (LeavesRefused-Admits w) parse_int c p typed
      (λ q t. answered-LeavesRefused w (handle c q w) (handle-LeavesTables c q w)))
