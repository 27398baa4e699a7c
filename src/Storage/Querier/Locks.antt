-- ===== src/Storage/Querier/Locks.antt =====
-- Which rows the queries lock: `FOR UPDATE` locks the row that it reads, no other query locks.
use equilibra.Common.{ℕ, ◌≡◌, refl, String, List, [], ◌∷◌, ◌++◌, arith}
use equilibra.Common.Int.{ℤ}
use equilibra.Errors.{Error, ok, err}
use equilibra.Events.{EntryPosted}
use equilibra.Storage.Schema.{Account, Transaction}
use equilibra.Storage.Session.{Session, Lock, statement}
use equilibra.Storage.Session.Locks.{LocksNothing, LocksNothing-statement}
use equilibra.Storage.Querier.{
  get_account_for_update, get_account_balance, create_transaction, get_transaction,
  create_ledger_entry, create_outbox_event,
}

pub LocksNothing-get_account_balance : (id : ℤ) → LocksNothing (get_account_balance id)
unfolding get_account_balance
LocksNothing-get_account_balance id = LocksNothing-statement _ (record { at = λ s. refl })

pub LocksNothing-get_transaction : (k : String) → LocksNothing (get_transaction k)
unfolding get_transaction
LocksNothing-get_transaction k = LocksNothing-statement _ (record { at = λ s. refl })

pub LocksNothing-create_transaction : (x : Transaction) → LocksNothing (create_transaction x)
unfolding create_transaction
LocksNothing-create_transaction x = LocksNothing-statement _ (record { at = λ s. ground arith })

pub LocksNothing-create_ledger_entry :
    (transaction account amount : ℤ) → LocksNothing (create_ledger_entry transaction account amount)
unfolding create_ledger_entry
LocksNothing-create_ledger_entry transaction account amount =
    LocksNothing-statement _ (record { at = λ s. ground arith })

pub LocksNothing-create_outbox_event :
    (kind : String) (k : List ℕ) (payload : EntryPosted)
    → LocksNothing (create_outbox_event kind k payload)
unfolding create_outbox_event
LocksNothing-create_outbox_event kind k payload =
    LocksNothing-statement _ (record { at = λ s. ground arith })

-- A read row is locked; a read that fails locks nothing.
pub get_account_for_update-locks :
    (id : ℤ) (s : Session) {a : Account} {t : Session}
    → get_account_for_update id s ≡ (ok a, t)
    → t.locked ≡ s.locked ++ Lock.account id ∷ []
unfolding get_account_for_update statement
get_account_for_update-locks id s h = ground arith

pub get_account_for_update-locks_nothing :
    (id : ℤ) (s : Session) {e : Error} {t : Session}
    → get_account_for_update id s ≡ (err e, t)
    → t.locked ≡ s.locked
unfolding get_account_for_update statement
get_account_for_update-locks_nothing id s h = ground arith
