-- ===== src/Storage/WithTx.antt =====
-- `Storage.WithTx` of internal/storage/storage.go: begin, run the body, commit, or roll back.
pub mod Inversion
use equilibra.Common.{ℕ, String, Bool, true, false, List, []}
use equilibra.Errors.{Outcome, ok, err, driver}
use equilibra.Storage.Session.{Db, Sequences, Session, Exec}

-- What is kept between transactions.
pub record World : Type 0 where
  pub db : Db
  pub sequences : Sequences

-- How a COMMIT ends: acknowledged; refused; or the answer is lost after the server applied it.
pub data Commit : Type 0 where
  acknowledged refused applied_unheard : Commit

-- What the surroundings decide of one transaction.
pub record Conditions : Type 0 where
  pub begins : Bool
  pub faults : List Bool
  pub now : ℕ
  pub uuid : ℕ → String
  pub outbox_free : Bool
  pub commit : Commit

abbrev pub open_session : Conditions → World → Session
open_session c w = record {
  db = w.db;
  sequences = w.sequences;
  locked = [];
  faults = c.faults;
  now = c.now;
  uuid = c.uuid;
  outbox_free = c.outbox_free;
}

-- The tables of the transaction become the tables; a rollback keeps only the sequences.
abbrev pub committed : Session → World
committed s = record { db = s.db; sequences = s.sequences }

abbrev pub rolled_back : World → Session → World
rolled_back w s = record { db = w.db; sequences = s.sequences }

abbrev pub finish : {A : Type 0} → Commit → World → Outcome A × Session → Outcome A × World
finish Commit.acknowledged w (ok a, s) = (ok a, committed s)
finish Commit.refused w (ok a, s) = (err driver, rolled_back w s)
finish Commit.applied_unheard w (ok a, s) = (err driver, committed s)
finish _ w (err e, s) = (err e, rolled_back w s)

abbrev pub run_tx : {A : Type 0} → Bool → Conditions → Exec A → World → Outcome A × World
run_tx true c body w = finish c.commit w (body (open_session c w))
run_tx false c body w = (err driver, w)

-- The closure's captured result is the action's value; beside an error it is dropped.
unfoldable pub with_tx : {A : Type 0} → Conditions → Exec A → World → Outcome A × World
with_tx c body w = run_tx c.begins c body w
