-- ===== src/Storage/Session/Inversion.antt =====
-- What a successful action says of its parts.
use equilibra.Common.{◌≡◌, refl, ◌∙◌, Bool, true, false, List, [], ◌∷◌, arith}
use equilibra.Errors.{Error, Outcome, ok, err}
use equilibra.Storage.Session.{
  Session, Exec, continue, ◌>>=◌, raise_if, replace_not_found, or_not_found, run_statement,
  statement,
}

-- Two sessions that differ at most in the locks and the coming faults.
pub record SameState (s u : Session) : Type 0 where
  pub db : u.db ≡ s.db
  pub sequences : u.sequences ≡ s.sequences
  pub now : u.now ≡ s.now
  pub uuid : u.uuid ≡ s.uuid

pub SameState-refl : (s : Session) → SameState s s
SameState-refl s = record { db = refl; sequences = refl; now = refl; uuid = refl }

pub SameState-trans : {s t u : Session} → SameState s t → SameState t u → SameState s u
SameState-trans a b = record {
  db = b.db ∙ a.db;
  sequences = b.sequences ∙ a.sequences;
  now = b.now ∙ a.now;
  uuid = b.uuid ∙ a.uuid;
}

continue-ok :
    {A B : Type 0} (f : A → Exec B) (r : Outcome A × Session) {b : B} {t : Session}
    → continue f r ≡ (ok b, t)
    → (a : A) × (u : Session) × (r ≡ (ok a, u)) × (f a u ≡ (ok b, t))
continue-ok f (ok a, u) h = (a, u, refl, h)
continue-ok f (err e, u) h = cc

-- A successful chain is a successful first part and a successful rest.
pub bind-ok :
    {A B : Type 0} (m : Exec A) (f : A → Exec B) (s : Session) {b : B} {t : Session}
    → (m >>= f) s ≡ (ok b, t)
    → (a : A) × (u : Session) × (m s ≡ (ok a, u)) × (f a u ≡ (ok b, t))
bind-ok m f s h = continue-ok f (m s) h

-- A guard that lets pass had a false test, and changes nothing.
pub raise_if-ok :
    {B : Type 0} (c : Bool) (e : Error) (k : Exec B) (s : Session) {b : B} {t : Session}
    → (raise_if c e >>= λ _. k) s ≡ (ok b, t)
    → (c ≡ false) × (k s ≡ (ok b, t))
raise_if-ok true e k s h = cc
raise_if-ok false e k s h = (refl, h)

replace_not_found-ok :
    {A : Type 0} (e : Error) (r : Outcome A × Session) {a : A} {t : Session}
    → replace_not_found e r ≡ (ok a, t)
    → r ≡ (ok a, t)
replace_not_found-ok e (ok a, s) h = h
replace_not_found-ok e (err Error.not_found, s) h = cc
replace_not_found-ok e (err other, s) h = ground arith

pub or_not_found-ok :
    {A : Type 0} (m : Exec A) (e : Error) (s : Session) {a : A} {t : Session}
    → or_not_found m e s ≡ (ok a, t)
    → m s ≡ (ok a, t)
or_not_found-ok m e s h = replace_not_found-ok e (m s) h

run_statement-ok :
    {A : Type 0} (fs : List Bool) (m : Exec A) (s : Session) {a : A} {t : Session}
    → run_statement fs m s ≡ (ok a, t)
    → (u : Session) × SameState s u × (m u ≡ (ok a, t))
run_statement-ok [] m s h = (s, SameState-refl s, h)
run_statement-ok (true ∷ rest) m s h = cc
run_statement-ok (false ∷ rest) m s h =
    (record s { faults = rest }, record { db = refl; sequences = refl; now = refl; uuid = refl }, h)

-- A statement that succeeded ran, on the same tables.
pub statement-ok :
    {A : Type 0} (m : Exec A) (s : Session) {a : A} {t : Session}
    → statement m s ≡ (ok a, t)
    → (u : Session) × SameState s u × (m u ≡ (ok a, t))
unfolding statement
statement-ok m s h = run_statement-ok s.faults m s h
