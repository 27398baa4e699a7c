-- ===== src/Storage/Session.antt =====
-- A database transaction as a state: the tables that it sees, the sequences, the rows that it has
-- locked, and what its surroundings decide. A method of `Querier` is an action on a session.
pub mod Inversion
pub mod Locks
use equilibra.Common.{ℕ, String, Bool, true, false, Option, List, [], ◌∷◌}
use equilibra.Common.Int.{ℤ}
use equilibra.Errors.{Error, Outcome, ok, err, driver, not_found}
use equilibra.Events.Document.{Json}
use equilibra.Storage.Schema.{AccountRow, Transaction, EntryRow}

-- A row of `outbox`.
pub record OutboxRow : Type 0 where
  pub id : ℤ
  pub event_id : String
  pub event_type : String
  pub partition_key : List ℕ
  pub payload : Json
  pub created_at : ℕ
  pub published_at : Option ℕ

-- The tables, each in the order of insertion.
pub record Db : Type 0 where
  pub accounts : List AccountRow
  pub transactions : List Transaction
  pub entries : List EntryRow
  pub outbox : List OutboxRow

-- The BIGSERIAL sequences: the next value of each. A rollback does not reset them.
pub record Sequences : Type 0 where
  pub transactions : ℕ
  pub entries : ℕ
  pub outbox : ℕ

-- A row lock taken by `FOR UPDATE`.
pub data Lock : Type 0 where
  account : ℤ → Lock
  transaction : ℤ → Lock

-- `faults` says of each coming statement whether the driver fails it (a lost connection, an
-- expired context); past its end no statement fails. `now` is `now()`, which is constant in a
-- transaction; `uuid` is `gen_random_uuid()` at each value of the outbox sequence; `outbox_free`
-- says whether `pg_try_advisory_xact_lock` gets the lock.
pub record Session : Type 0 where
  pub db : Db
  pub sequences : Sequences
  pub locked : List Lock
  pub faults : List Bool
  pub now : ℕ
  pub uuid : ℕ → String
  pub outbox_free : Bool

abbrev pub Exec : Type 0 → Type 0
Exec A = Session → Outcome A × Session

module _ {A : Type 0} where
  abbrev pub pure : A → Exec A
  pure a s = (ok a, s)

  abbrev pub raise : Error → Exec A
  raise e s = (err e, s)

abbrev pub continue : {A B : Type 0} → (A → Exec B) → Outcome A × Session → Outcome B × Session
continue f (ok a, s) = f a s
continue f (err e, s) = (err e, s)

infixl 5 ◌>>=◌ ◌>>◌
-- `x, err := m; if err != nil { return err }; …`
abbrev pub ◌>>=◌ : {A B : Type 0} → Exec A → (A → Exec B) → Exec B
◌>>=◌ m f s = continue f (m s)

abbrev pub ◌>>◌ : {A B : Type 0} → Exec A → Exec B → Exec B
m >> k = m >>= λ _. k

-- `if c { return e }`
abbrev pub raise_if : Bool → Error → Exec (Unit {0})
raise_if true e = raise e
raise_if false e = pure tt

-- `if errors.Is(err, storage.ErrNotFound) { return e }; return err`
abbrev pub replace_not_found : {A : Type 0} → Error → Outcome A × Session → Outcome A × Session
replace_not_found e (ok a, s) = (ok a, s)
replace_not_found e (err not_found, s) = (err e, s)
replace_not_found e (err other, s) = (err other, s)

abbrev pub or_not_found : {A : Type 0} → Exec A → Error → Exec A
or_not_found m e s = replace_not_found e (m s)

-- One statement: the driver may fail it before it runs.
abbrev pub run_statement : {A : Type 0} → List Bool → Exec A → Exec A
run_statement [] m s = m s
run_statement (true ∷ rest) m s = (err driver, record s { faults = rest })
run_statement (false ∷ rest) m s = m (record s { faults = rest })

unfoldable pub statement : {A : Type 0} → Exec A → Exec A
statement m s = run_statement s.faults m s
