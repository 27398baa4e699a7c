-- ===== src/Service/Core/Inversion.antt =====
-- What a successful run of the core has done: it has posted a new transaction, or it has found the
-- earlier one with the same key and the same arguments.
use equilibra.Common.{
  ◌≡◌, refl, sym, ap, ◌∙◌, subst, Bool, true, false, not, none, some, arith, str_eq, ◌⊎◌, inl, inr,
  if◌then◌else◌,
}
use equilibra.Common.Int.{ℤ, pos, ◌<ℤ◌, in_int64, min_ℤ, max_ℤ, ◌==ℤ◌, min_max_cases}
use equilibra.Errors.{Error, Outcome, ok, err, currency_mismatch}
use equilibra.Storage.Schema.{AccountRow, Account, Transaction}
use equilibra.Storage.Session.{Session, pure, raise}
use equilibra.Storage.Session.Inversion.{SameState, SameState-trans, bind-ok, raise_if-ok}
use equilibra.Storage.Querier.{
  scan_account, account_with, transaction_with_key, is_reversed, has_transaction, created_from,
  balance, get_transaction, get_transaction, create_transaction,
}
use equilibra.Storage.Querier.Inversion.{
  get_account_for_update-ok, get_transaction-ok, create_transaction-ok,
  create_transaction_duplicate,
}
use equilibra.Service.Types.{TransferParams, Result, new_result, compare_transactions}
use equilibra.Service.Core.{
  or_lock_error, lock_for_transfer, new_transaction, is_overdrawn, replay, after_create,
  transfer_locked, transfer,
}
use equilibra.Service.Core.Posting.{posted_db, post-ok, ok-injective}

-- A posting: the guards that it passed, and all that it changed.
pub record IsPosted (p : TransferParams) (s : Session) (r : Result) (t : Session) : Type 0 where
  pub source : AccountRow
  pub destination : AccountRow
  pub created : Transaction
  pub source_found : account_with p.from s.db.accounts ≡ some source
  pub destination_found : account_with p.to s.db.accounts ≡ some destination
  pub same_currency : str_eq source.currency destination.currency ≡ true
  pub positive : pos 0 <ℤ p.amount
  pub fresh : transaction_with_key p.idempotency_key s.db.transactions ≡ none
  pub unreversed : is_reversed p.reversal_of s.db.transactions ≡ false
  pub new_id : has_transaction (pos s.sequences.transactions) s.db ≡ false
  pub fits : in_int64 (balance p.from s.db.entries) ≡ true
  pub covered : is_overdrawn (scan_account source) p (balance p.from s.db.entries) ≡ false
  pub row : created ≡ created_from (new_transaction p) s.sequences.transactions s.now
  pub result : r ≡ new_result created
  pub db : t.db ≡ posted_db p (scan_account source) (scan_account destination) created s

-- A replay: the earlier transaction, and that nothing changed.
pub record IsReplayed (p : TransferParams) (s : Session) (r : Result) (t : Session) : Type 0 where
  pub source : AccountRow
  pub destination : AccountRow
  pub source_found : account_with p.from s.db.accounts ≡ some source
  pub destination_found : account_with p.to s.db.accounts ≡ some destination
  pub same_currency : str_eq source.currency destination.currency ≡ true
  pub prev : Transaction
  pub found : transaction_with_key p.idempotency_key s.db.transactions ≡ some prev
  pub matches : compare_transactions (new_transaction p) prev ≡ true
  pub result : r ≡ record (new_result prev) { replayed = true }
  pub db : t.db ≡ s.db

if_raise-ok :
    (c : Bool) (v r : Result) (e : Error) (s : Session) {t : Session}
    → (if c then pure v else raise e) s ≡ (ok r, t)
    → (c ≡ true) × (r ≡ v) × (t ≡ s)
if_raise-ok true v r e s h = (refl, sym (ok-injective h).0, sym (ok-injective h).1)
if_raise-ok false v r e s h = cc

replay-ok :
    (p : TransferParams) (s : Session) {r : Result} {t : Session}
    → replay p s ≡ (ok r, t)
    → (prev : Transaction) × (transaction_with_key p.idempotency_key s.db.transactions ≡ some prev)
      × (compare_transactions (new_transaction p) prev ≡ true)
      × (r ≡ record (new_result prev) { replayed = true })
      × (t.db ≡ s.db)
unfolding replay
replay-ok p s {r} h =
    let (prev, u, e, k) = bind-ok (get_transaction p.idempotency_key) _ s h in
    let (same, found) = get_transaction-ok p.idempotency_key s e in
    let (matches, value, done) =
      if_raise-ok (compare_transactions (new_transaction p) prev) _ r _ u k in
    (prev, found, matches, value, ap (λ v. v.db) done ∙ same.db)

-- `replay` runs only on a key that was found taken, in the tables as they were.
after_create-ok :
    (p : TransferParams) (source destination : AccountRow) (o : Outcome Transaction × Session)
    (s : Session) {r : Result} {t : Session}
    → create_transaction (new_transaction p) s ≡ o
    → account_with p.from s.db.accounts ≡ some source
    → account_with p.to s.db.accounts ≡ some destination
    → str_eq source.currency destination.currency ≡ true
    → after_create p (scan_account source) (scan_account destination) o ≡ (ok r, t)
    → IsPosted p s r t ⊎ IsReplayed p s r t
unfolding after_create
after_create-ok p source destination (ok created, u) s e f1 f2 cur h =
    let ins = create_transaction-ok (new_transaction p) s e in
    let done = post-ok p (scan_account source) (scan_account destination) created u h in
    let same : u.db.entries ≡ s.db.entries = ap (λ d. d.entries) ins.db in
    inl (record {
      source = source;
      destination = destination;
      created = created;
      source_found = f1;
      destination_found = f2;
      same_currency = cur;
      positive = ins.positive;
      fresh = ins.fresh;
      unreversed = ins.unreversed;
      new_id = ins.new_id;
      fits = subst (λ es. in_int64 (balance p.from es) ≡ true) same done.fits;
      covered =
          subst (λ es. is_overdrawn (scan_account source) p (balance p.from es) ≡ false) same
            done.covered;
      row = ins.row;
      result = done.result;
      db = cc (ins.db, ins.sequences, ins.now, ins.uuid, done.db);
    })
after_create-ok p source destination (err Error.duplicate_key, u) s e f1 f2 cur h =
    let (_, _, kept) = create_transaction_duplicate (new_transaction p) s e in
    let (prev, found, matches, value, same) = replay-ok p u h in
    inr (record {
      source = source;
      destination = destination;
      source_found = f1;
      destination_found = f2;
      same_currency = cur;
      prev = prev;
      found =
          subst (λ d. transaction_with_key p.idempotency_key d.transactions ≡ some prev) kept found;
      matches = matches;
      result = value;
      db = same ∙ kept;
    })
after_create-ok p source destination (err other, u) s e f1 f2 cur h = absurd (ground arith)

IsPosted-SameState :
    {p : TransferParams} {s u : Session} {r : Result} {t : Session}
    → SameState s u
    → IsPosted p u r t
    → IsPosted p s r t
IsPosted-SameState {p} same i = record {
  source = i.source;
  destination = i.destination;
  created = i.created;
  source_found = subst (λ d. account_with p.from d.accounts ≡ some i.source) same.db i.source_found;
  destination_found =
      subst (λ d. account_with p.to d.accounts ≡ some i.destination) same.db i.destination_found;
  same_currency = i.same_currency;
  positive = i.positive;
  fresh = subst (λ d. transaction_with_key p.idempotency_key d.transactions ≡ none) same.db i.fresh;
  new_id = cc (i.new_id, same.db, same.sequences);
  unreversed = subst (λ d. is_reversed p.reversal_of d.transactions ≡ false) same.db i.unreversed;
  fits = subst (λ d. in_int64 (balance p.from d.entries) ≡ true) same.db i.fits;
  covered =
      subst (λ d. is_overdrawn (scan_account i.source) p (balance p.from d.entries) ≡ false) same.db
        i.covered;
  row = cc (i.row, same.sequences, same.now);
  result = i.result;
  db = cc (i.db, same.db, same.sequences, same.now, same.uuid);
}

IsReplayed-SameState :
    {p : TransferParams} {s u : Session} {r : Result} {t : Session}
    → SameState s u
    → IsReplayed p u r t
    → IsReplayed p s r t
IsReplayed-SameState {p} same i = record {
  source = i.source;
  destination = i.destination;
  source_found = subst (λ d. account_with p.from d.accounts ≡ some i.source) same.db i.source_found;
  destination_found =
      subst (λ d. account_with p.to d.accounts ≡ some i.destination) same.db i.destination_found;
  same_currency = i.same_currency;
  prev = i.prev;
  found =
      subst (λ d. transaction_with_key p.idempotency_key d.transactions ≡ some i.prev) same.db
        i.found;
  matches = i.matches;
  result = i.result;
  db = i.db ∙ same.db;
}

-- The two ways for a run to succeed.
abbrev pub Succeeds : TransferParams → Session → Result → Session → Type 0
Succeeds p s r t = IsPosted p s r t ⊎ IsReplayed p s r t

pub Succeeds-SameState :
    {p : TransferParams} {s u : Session} {r : Result} {t : Session}
    → SameState s u
    → Succeeds p u r t
    → Succeeds p s r t
Succeeds-SameState same (inl i) = inl (IsPosted-SameState same i)
Succeeds-SameState same (inr i) = inr (IsReplayed-SameState same i)

transfer_locked-ok :
    (p : TransferParams) (source destination : AccountRow) (s : Session) {r : Result} {t : Session}
    → account_with p.from s.db.accounts ≡ some source
    → account_with p.to s.db.accounts ≡ some destination
    → transfer_locked p (scan_account source) (scan_account destination) s ≡ (ok r, t)
    → Succeeds p s r t
unfolding transfer_locked
transfer_locked-ok p source destination s f1 f2 h =
    let (cur, k) =
      raise_if-ok (not (str_eq source.currency destination.currency)) currency_mismatch _ s h in
    after_create-ok p source destination (create_transaction (new_transaction p) s) s refl f1 f2
      (ground arith) k

or_lock_error-ok :
    {A : Type 0} (p : TransferParams) (id : ℤ) (o : Outcome A × Session) {a : A} {t : Session}
    → or_lock_error p id o ≡ (ok a, t)
    → o ≡ (ok a, t)
or_lock_error-ok p id (ok a, s) h = h
or_lock_error-ok p id (err e, s) h = cc

lock_for_transfer-ok :
    (p : TransferParams) (id : ℤ) (s : Session) {a : Account} {t : Session}
    → lock_for_transfer p id s ≡ (ok a, t)
    → (row : AccountRow) × SameState s t
      × (account_with id s.db.accounts ≡ some row)
      × (a ≡ scan_account row)
unfolding lock_for_transfer
lock_for_transfer-ok p id s h = get_account_for_update-ok id s (or_lock_error-ok p id _ h)

-- With both rows locked, the accounts are handed over as source and destination.
handed_over-ok :
    (p : TransferParams) (lo hi : ℤ) (row1 row2 : AccountRow) (a1 a2 : Account) (s : Session)
    {r : Result} {t : Session}
    → account_with lo s.db.accounts ≡ some row1
    → account_with hi s.db.accounts ≡ some row2
    → a1 ≡ scan_account row1
    → a2 ≡ scan_account row2
    → (((lo ==ℤ p.from) ≡ true) × (lo ≡ p.from) × (hi ≡ p.to))
      ⊎ (((lo ==ℤ p.from) ≡ false) × (lo ≡ p.to) × (hi ≡ p.from))
    → (if lo ==ℤ p.from then transfer_locked p a1 a2 else transfer_locked p a2 a1) s ≡ (ok r, t)
    → Succeeds p s r t
handed_over-ok p lo hi row1 row2 a1 a2 s f1 f2 is1 is2 (inl (test, is_lo, is_hi)) h =
    transfer_locked-ok p row1 row2 s (rw is_lo at f1) (rw is_hi at f2) (rw (test, is1, is2) at h)
handed_over-ok p lo hi row1 row2 a1 a2 s f1 f2 is1 is2 (inr (test, is_lo, is_hi)) h =
    transfer_locked-ok p row2 row1 s (rw is_hi at f2) (rw is_lo at f1) (rw (test, is1, is2) at h)

-- A successful run of the core has posted, or replayed.
pub transfer-Succeeds :
    (p : TransferParams) (s : Session) {r : Result} {t : Session}
    → transfer p s ≡ (ok r, t)
    → Succeeds p s r t
unfolding transfer
transfer-Succeeds p s {r} {t} h =
    let (a1, s1, e1, h1) = bind-ok (lock_for_transfer p (min_ℤ p.from p.to)) _ s h in
    let (row1, same1, found1, is1) = lock_for_transfer-ok p (min_ℤ p.from p.to) s e1 in
    let (a2, s2, e2, h2) = bind-ok (lock_for_transfer p (max_ℤ p.from p.to)) _ s1 h1 in
    let (row2, same2, found2, is2) = lock_for_transfer-ok p (max_ℤ p.from p.to) s1 e2 in
    let accounts : s2.db.accounts ≡ s1.db.accounts = ap (λ d. d.accounts) same2.db in
    let accounts1 : s1.db.accounts ≡ s.db.accounts = ap (λ d. d.accounts) same1.db in
    Succeeds-SameState (SameState-trans same1 same2) (
      handed_over-ok p (min_ℤ p.from p.to) (max_ℤ p.from p.to) row1 row2 a1 a2 s2
        (rw (accounts, accounts1) found1) (rw accounts found2) is1 is2 (min_max_cases p.from p.to)
        h2)
