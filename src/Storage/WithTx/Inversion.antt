-- ===== src/Storage/WithTx/Inversion.antt =====
-- What a database transaction leaves, by how it ended.
use equilibra.Common.{◌≡◌, refl, sym, ap, Bool, true, false, ◌⊎◌, inl, inr}
use equilibra.Errors.{Error, Outcome, ok, err}
use equilibra.Storage.Session.{Session, Exec}
use equilibra.Storage.WithTx.{
  World, Commit, Conditions, open_session, committed, finish, run_tx, with_tx,
}

finish-ok :
    {A : Type 0} (c : Commit) (w : World) (o : Outcome A × Session) {a : A} {w' : World}
    → finish c w o ≡ (ok a, w')
    → (t : Session) × (o ≡ (ok a, t)) × (w' ≡ committed t)
finish-ok Commit.acknowledged w (ok b, t) h = (t, cc, cc)
finish-ok Commit.refused w (ok b, t) h = cc
finish-ok Commit.applied_unheard w (ok b, t) h = cc
finish-ok Commit.acknowledged w (err e, t) h = cc
finish-ok Commit.refused w (err e, t) h = cc
finish-ok Commit.applied_unheard w (err e, t) h = cc

run_tx-ok :
    {A : Type 0} (b : Bool) (c : Conditions) (body : Exec A) (w : World) {a : A} {w' : World}
    → run_tx b c body w ≡ (ok a, w')
    → (t : Session) × (body (open_session c w) ≡ (ok a, t)) × (w' ≡ committed t)
run_tx-ok true c body w h = finish-ok c.commit w (body (open_session c w)) h
run_tx-ok false c body w h = cc

-- A success is a successful body, committed.
pub with_tx-ok :
    {A : Type 0} (c : Conditions) (body : Exec A) (w : World) {a : A} {w' : World}
    → with_tx c body w ≡ (ok a, w')
    → (t : Session) × (body (open_session c w) ≡ (ok a, t)) × (w' ≡ committed t)
unfolding with_tx
with_tx-ok c body w h = run_tx-ok c.begins c body w h

-- The tables behind a transaction are those of before, or those of a body that succeeded.
pub data Leaves {A : Type 0} (c : Conditions) (body : Exec A) (w w' : World) : Type 0 where
  unchanged : w'.db ≡ w.db → Leaves c body w w'
  ran :
      (a : A) (t : Session)
      → body (open_session c w) ≡ (ok a, t)
      → w'.db ≡ t.db
      → Leaves c body w w'

finish-Leaves :
    {A : Type 0} (c : Conditions) (body : Exec A) (m : Commit) (w : World) (o : Outcome A × Session)
    → body (open_session c w) ≡ o
    → Leaves c body w (finish m w o).1
finish-Leaves c body Commit.acknowledged w (ok a, t) e = ran a t e refl
finish-Leaves c body Commit.refused w (ok a, t) e = unchanged refl
finish-Leaves c body Commit.applied_unheard w (ok a, t) e = ran a t e refl
finish-Leaves c body Commit.acknowledged w (err x, t) e = unchanged refl
finish-Leaves c body Commit.refused w (err x, t) e = unchanged refl
finish-Leaves c body Commit.applied_unheard w (err x, t) e = unchanged refl

run_tx-Leaves :
    {A : Type 0} (b : Bool) (c : Conditions) (body : Exec A) (w : World)
    → Leaves c body w (run_tx b c body w).1
run_tx-Leaves true c body w = finish-Leaves c body c.commit w (body (open_session c w)) refl
run_tx-Leaves false c body w = unchanged refl

pub with_tx-Leaves :
    {A : Type 0} (c : Conditions) (body : Exec A) (w : World) → Leaves c body w (with_tx c body w).1
unfolding with_tx
with_tx-Leaves c body w = run_tx-Leaves c.begins c body w

-- A body that succeeded, whose commit the server applied unheard.
pub record AppliedUnheard {A : Type 0} (c : Conditions) (body : Exec A) (w w' : World)
    : Type 0 where
  pub commit : c.commit ≡ Commit.applied_unheard
  pub value : A
  pub final : Session
  pub run : body (open_session c w) ≡ (ok value, final)
  pub db : w'.db ≡ final.db

finish-err :
    {A : Type 0} (c : Conditions) (body : Exec A) (m : Commit) (w : World) (o : Outcome A × Session)
    {e : Error} {w' : World}
    → c.commit ≡ m
    → body (open_session c w) ≡ o
    → finish m w o ≡ (err e, w')
    → (w'.db ≡ w.db) ⊎ AppliedUnheard c body w w'
finish-err c body Commit.acknowledged w (ok a, t) is run h = cc
finish-err c body Commit.refused w (ok a, t) is run h = inl (ap (λ r. r.1.db) (sym h))
finish-err c body Commit.applied_unheard w (ok a, t) is run h =
    inr (record { commit = is; value = a; final = t; run = run; db = ap (λ r. r.1.db) (sym h) })
finish-err c body Commit.acknowledged w (err x, t) is run h = inl (ap (λ r. r.1.db) (sym h))
finish-err c body Commit.refused w (err x, t) is run h = inl (ap (λ r. r.1.db) (sym h))
finish-err c body Commit.applied_unheard w (err x, t) is run h = inl (ap (λ r. r.1.db) (sym h))

run_tx-err :
    {A : Type 0} (b : Bool) (c : Conditions) (body : Exec A) (w : World) {e : Error} {w' : World}
    → run_tx b c body w ≡ (err e, w')
    → (w'.db ≡ w.db) ⊎ AppliedUnheard c body w w'
run_tx-err true c body w h = finish-err c body c.commit w (body (open_session c w)) refl refl h
run_tx-err false c body w h = inl (ap (λ r. r.1.db) (sym h))

-- A failure leaves the tables alone, unless the commit was applied and its answer lost.
pub with_tx-err :
    {A : Type 0} (c : Conditions) (body : Exec A) (w : World) {e : Error} {w' : World}
    → with_tx c body w ≡ (err e, w')
    → (w'.db ≡ w.db) ⊎ AppliedUnheard c body w w'
unfolding with_tx
with_tx-err c body w h = run_tx-err c.begins c body w h
