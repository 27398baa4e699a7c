-- ===== src/Storage/Querier/Inversion.antt =====
-- What each query did, if it succeeded.
use equilibra.Common.{
  ◌≡◌, refl, sym, ap, ◌∙◌, subst, ◌+◌, String, Bool, true, false, List, [], ◌∷◌, ◌++◌, Option, none,
  some, arith, if◌then◌else◌, Option-cases, inl, inr, ℕ,
}
use equilibra.Common.Int.{ℤ, pos, ◌<ℤ◌, in_int64}
use equilibra.Errors.{Error, Outcome, ok, err, driver, duplicate_key}
use equilibra.Events.{EntryPosted}
use equilibra.Storage.Schema.{AccountRow, Account, Transaction, Status}
use equilibra.Storage.Session.{Session, statement, Lock}
use equilibra.Storage.Session.Inversion.{SameState, SameState-trans, statement-ok}
use equilibra.Storage.Querier.{
  scan_account, account_with, account_with_code, transaction_with_id, transaction_with_key,
  row_or_not_found, get_account_for_update, get_account, get_system_account_by_code, balance,
  get_account_balance, is_reversed, has_transaction, references_hold, created_from,
  create_transaction, insert_transaction, get_transaction, get_transaction_by_id, set_status,
  updates_some, update_transaction_status, entry_row, create_ledger_entry, outbox_row,
  create_outbox_event, lock_row,
}

lock_row-SameState :
    {A : Type 0} (l : Lock) (o : Option A) (s : Session) → SameState s (lock_row l o s)
lock_row-SameState l none s = record { db = refl; sequences = refl; now = refl; uuid = refl }
lock_row-SameState l (some _) s = record { db = refl; sequences = refl; now = refl; uuid = refl }

read_row-ok :
    {A B : Type 0} (f : A → B) (o : Option A) (s : Session) {b : B} {t : Session}
    → ◌≡◌ {A = Outcome B × Session} (row_or_not_found f o, s) (ok b, t)
    → (a : A) × (o ≡ some a) × (b ≡ f a) × (t ≡ s)
read_row-ok f none s h = cc
read_row-ok f (some a) s h = (a, refl, cc, cc)

pub get_account-ok :
    (id : ℤ) (s : Session) {a : Account} {t : Session}
    → get_account id s ≡ (ok a, t)
    → (row : AccountRow) × SameState s t
      × (account_with id s.db.accounts ≡ some row)
      × (a ≡ scan_account row)
unfolding get_account
get_account-ok id s h =
    let (u, same, e) = statement-ok _ s h in
    let (row, found, value, done) = read_row-ok scan_account (account_with id u.db.accounts) u e in
    (
      row,
      subst (SameState s) (sym done) same,
      subst (λ d. account_with id d.accounts ≡ some row) same.db found,
      value,
    )

lock_row-ok :
    {A B : Type 0} (f : A → B) (l : Lock) (o : Option A) (s : Session) {b : B} {t : Session}
    → ◌≡◌ {A = Outcome B × Session} (row_or_not_found f o, lock_row l o s) (ok b, t)
    → (a : A) × (o ≡ some a) × (b ≡ f a) × (SameState s t)
lock_row-ok f l none s h = cc
lock_row-ok f l (some a) s h =
    (a, refl, cc, subst (SameState s) (ap (λ r. r.1) h) (lock_row-SameState l (some a) s))

pub get_account_for_update-ok :
    (id : ℤ) (s : Session) {a : Account} {t : Session}
    → get_account_for_update id s ≡ (ok a, t)
    → (row : AccountRow) × SameState s t
      × (account_with id s.db.accounts ≡ some row)
      × (a ≡ scan_account row)
unfolding get_account_for_update
get_account_for_update-ok id s h =
    let (u, same, e) = statement-ok _ s h in
    let (row, found, value, kept) =
      lock_row-ok scan_account (Lock.account id) (account_with id u.db.accounts) u e in
    (
      row,
      SameState-trans same kept,
      subst (λ d. account_with id d.accounts ≡ some row) same.db found,
      value,
    )

pub get_transaction-ok :
    (k : String) (s : Session) {x : Transaction} {t : Session}
    → get_transaction k s ≡ (ok x, t)
    → SameState s t × (transaction_with_key k s.db.transactions ≡ some x)
unfolding get_transaction
get_transaction-ok k s {x} h =
    let (u, same, e) = statement-ok _ s h in
    let (row, found, value, done) =
      read_row-ok (λ y. y) (transaction_with_key k u.db.transactions) u e in
    (
      subst (SameState s) (sym done) same,
      subst (λ d. transaction_with_key k d.transactions ≡ some x) same.db
          (found ∙ ap some (sym value)),
    )

pub get_transaction_by_id-ok :
    (id : ℤ) (s : Session) {x : Transaction} {t : Session}
    → get_transaction_by_id id s ≡ (ok x, t)
    → SameState s t × (transaction_with_id id s.db.transactions ≡ some x)
unfolding get_transaction_by_id
get_transaction_by_id-ok id s {x} h =
    let (u, same, e) = statement-ok _ s h in
    let (row, found, value, kept) =
      lock_row-ok (λ y. y) (Lock.transaction id) (transaction_with_id id u.db.transactions) u e in
    (
      SameState-trans same kept,
      subst (λ d. transaction_with_id id d.transactions ≡ some x) same.db
          (found ∙ ap some (sym value)),
    )

checked-ok :
    {A : Type 0} (c : Bool) (x : A) (e : Error) (s : Session) {y : A} {t : Session}
    → ◌≡◌ {A = Outcome A × Session} (if c then ok x else err e, s) (ok y, t)
    → (c ≡ true) × (y ≡ x) × (t ≡ s)
checked-ok true x e s h = (refl, cc, cc)
checked-ok false x e s h = cc

pub get_account_balance-ok :
    (id : ℤ) (s : Session) {b : ℤ} {t : Session}
    → get_account_balance id s ≡ (ok b, t)
    → SameState s t × (b ≡ balance id s.db.entries) × (in_int64 b ≡ true)
unfolding get_account_balance
get_account_balance-ok id s {b} h =
    let (u, same, e) = statement-ok _ s h in
    let total = balance id u.db.entries in
    let (fits, value, done) = checked-ok (in_int64 total) total driver u e in
    (
      subst (SameState s) (sym done) same,
      subst (λ d. b ≡ balance id d.entries) same.db value,
      rw value fits,
    )

-- What an inserted transaction is, and what held when it was inserted.
pub record IsInserted (x : Transaction) (s : Session) (r : Transaction) (t : Session) : Type 0 where
  pub positive : pos 0 <ℤ x.amount
  pub fresh : transaction_with_key x.idempotency_key s.db.transactions ≡ none
  pub unreversed : is_reversed x.reversal_of s.db.transactions ≡ false
  pub new_id : has_transaction (pos s.sequences.transactions) s.db ≡ false
  pub known : references_hold x s.db ≡ true
  pub row : r ≡ created_from x s.sequences.transactions s.now
  pub db : t.db ≡ record s.db { transactions = s.db.transactions ++ r ∷ [] }
  pub sequences : t.sequences ≡ record s.sequences { transactions = s.sequences.transactions + 1 }
  pub now : t.now ≡ s.now
  pub uuid : t.uuid ≡ s.uuid

insert_transaction-ok :
    (x : Transaction) (s : Session) {r : Transaction} {t : Session}
    → insert_transaction x s.sequences.transactions (record s {
      sequences = record s.sequences { transactions = s.sequences.transactions + 1 };
    })
      ≡ (ok r, t)
    → IsInserted x s r t
insert_transaction-ok x s h = ground arith

IsInserted-SameState :
    {x : Transaction} {s u : Session} {r : Transaction} {t : Session}
    → SameState s u
    → IsInserted x u r t
    → IsInserted x s r t
IsInserted-SameState {x} same i = record {
  positive = i.positive;
  fresh = subst (λ d. transaction_with_key x.idempotency_key d.transactions ≡ none) same.db i.fresh;
  unreversed = subst (λ d. is_reversed x.reversal_of d.transactions ≡ false) same.db i.unreversed;
  new_id = cc (i.new_id, same.db, same.sequences);
  known = subst (λ d. references_hold x d ≡ true) same.db i.known;
  row = cc;
  db = cc;
  sequences = cc;
  now = i.now ∙ same.now;
  uuid = i.uuid ∙ same.uuid;
}

pub create_transaction-ok :
    (x : Transaction) (s : Session) {r : Transaction} {t : Session}
    → create_transaction x s ≡ (ok r, t)
    → IsInserted x s r t
unfolding create_transaction
create_transaction-ok x s h =
    let (u, same, e) = statement-ok _ s h in IsInserted-SameState same (insert_transaction-ok x u e)

-- A duplicate key was found in the tables, which are left alone.
pub create_transaction_duplicate :
    (x : Transaction) (s : Session) {t : Session}
    → create_transaction x s ≡ (err duplicate_key, t)
    → (prev : Transaction) × (transaction_with_key x.idempotency_key s.db.transactions ≡ some prev)
      × (t.db ≡ s.db)
unfolding create_transaction statement
create_transaction_duplicate x s h =
    elim (Option-cases (transaction_with_key x.idempotency_key s.db.transactions)) [
      | inl free ↦ absurd (ground arith)
      | inr (prev, found) ↦ (prev, found, ground arith)
    ]

-- What an inserted entry leaves.
pub record EntryAdded (transaction account amount : ℤ) (s t : Session) : Type 0 where
  pub db : t.db ≡ record s.db {
    entries = s.db.entries ++ entry_row s.sequences.entries transaction account amount s.now ∷ [];
  }
  pub sequences : t.sequences ≡ record s.sequences { entries = s.sequences.entries + 1 }
  pub now : t.now ≡ s.now
  pub uuid : t.uuid ≡ s.uuid

pub create_ledger_entry-ok :
    (transaction account amount : ℤ) (s : Session) {a : Unit {0}} {t : Session}
    → create_ledger_entry transaction account amount s ≡ (ok a, t)
    → EntryAdded transaction account amount s t
unfolding create_ledger_entry
create_ledger_entry-ok transaction account amount s h =
    let (u, same, e) = statement-ok _ s h in ground arith

-- What an inserted event leaves.
pub record EventAdded (kind : String) (k : List ℕ) (payload : EntryPosted) (s t : Session)
    : Type 0 where
  pub db : t.db ≡ record s.db {
    outbox =
        s.db.outbox
        ++ outbox_row s.sequences.outbox (s.uuid s.sequences.outbox) kind k payload s.now ∷ [];
  }
  pub sequences : t.sequences ≡ record s.sequences { outbox = s.sequences.outbox + 1 }
  pub now : t.now ≡ s.now
  pub uuid : t.uuid ≡ s.uuid

pub create_outbox_event-ok :
    (kind : String) (k : List ℕ) (payload : EntryPosted) (s : Session) {a : Unit {0}} {t : Session}
    → create_outbox_event kind k payload s ≡ (ok a, t)
    → EventAdded kind k payload s t
unfolding create_outbox_event
create_outbox_event-ok kind k payload s h = let (u, same, e) = statement-ok _ s h in ground arith

-- What a changed status leaves; some row was changed.
pub record StatusSet (id : ℤ) (status : Status) (s t : Session) : Type 0 where
  pub some_row : updates_some id s.db.transactions ≡ true
  pub db : t.db ≡ record s.db { transactions = set_status id status s.db.transactions }
  pub sequences : t.sequences ≡ s.sequences

pub update_transaction_status-ok :
    (id : ℤ) (status : Status) (s : Session) {a : Unit {0}} {t : Session}
    → update_transaction_status id status s ≡ (ok a, t)
    → StatusSet id status s t
unfolding update_transaction_status statement
update_transaction_status-ok id status s h = ground arith

pub get_system_account_by_code-ok :
    (code : String) (s : Session) {a : Account} {t : Session}
    → get_system_account_by_code code s ≡ (ok a, t)
    → (row : AccountRow) × SameState s t
      × (account_with_code code s.db.accounts ≡ some row)
      × (a ≡ scan_account row)
unfolding get_system_account_by_code
get_system_account_by_code-ok code s h =
    let (u, same, e) = statement-ok _ s h in
    let (row, found, value, done) =
      read_row-ok scan_account (account_with_code code u.db.accounts) u e in
    (
      row,
      subst (SameState s) (sym done) same,
      subst (λ d. account_with_code code d.accounts ≡ some row) same.db found,
      value,
    )
