-- ===== src/Storage/Session/Locks.antt =====
-- Actions that take no row lock.
use equilibra.Common.{◌≡◌, refl, ◌∙◌, Bool, true, false, List, [], ◌∷◌, ◌⊎◌, inl, inr}
use equilibra.Errors.{Error, Outcome, ok, err}
use equilibra.Storage.Session.{
  Session, Exec, continue, ◌>>=◌, pure, raise_if, run_statement, statement,
}

pub record LocksNothing {A : Type 0} (m : Exec A) : Type 0 where
  pub at : (s : Session) → (m s).1.locked ≡ s.locked

pub LocksNothing-pure : {A : Type 0} (a : A) → LocksNothing (pure a)
LocksNothing-pure a = record { at = λ s. refl }

pub LocksNothing-raise_if : (b : Bool) (e : Error) → LocksNothing (raise_if b e)
LocksNothing-raise_if true e = record { at = λ s. refl }
LocksNothing-raise_if false e = record { at = λ s. refl }

continue-locks :
    {A B : Type 0} (f : A → Exec B) (o : Outcome A × Session)
    → ((a : A) → LocksNothing (f a))
    → (continue f o).1.locked ≡ o.1.locked
continue-locks f (ok a, s) h = (h a).at s
continue-locks f (err e, s) h = refl

pub LocksNothing-bind :
    {A B : Type 0} (m : Exec A) (f : A → Exec B)
    → LocksNothing m
    → ((a : A) → LocksNothing (f a))
    → LocksNothing (m >>= f)
LocksNothing-bind m f hm hf = record { at = λ s. continue-locks f (m s) hf ∙ hm.at s }

run_statement-locks :
    {A : Type 0} (fs : List Bool) (m : Exec A) (s : Session)
    → LocksNothing m
    → (run_statement fs m s).1.locked ≡ s.locked
run_statement-locks [] m s h = h.at s
run_statement-locks (true ∷ rest) m s h = refl
run_statement-locks (false ∷ rest) m s h = h.at (record s { faults = rest })

pub LocksNothing-statement : {A : Type 0} (m : Exec A) → LocksNothing m → LocksNothing (statement m)
unfolding statement
LocksNothing-statement m h = record { at = λ s. run_statement-locks s.faults m s h }

-- How an action ended.
pub Outcome-cases :
    {A : Type 0} (o : Outcome A × Session)
    → ((a : A) × (t : Session) × (o ≡ (ok a, t))) ⊎ ((e : Error) × (t : Session) × (o ≡ (err e, t)))
Outcome-cases (ok a, t) = inl (a, t, refl)
Outcome-cases (err e, t) = inr (e, t, refl)
