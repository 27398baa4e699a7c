-- ===== src/Service/Core/Posting.antt =====
-- What `post` leaves behind, if it succeeds: two entries and two events.
use equilibra.Common.{◌≡◌, sym, ap, ◌∙◌, ◌+◌, true, false, [], ◌∷◌, ◌++◌}
use equilibra.Common.Int.{in_int64, neg64}
use equilibra.Errors.{Outcome, ok, not_enough}
use equilibra.Events.{key}
use equilibra.Storage.Schema.{Account, Transaction}
use equilibra.Storage.Session.{Session, Db}
use equilibra.Storage.Session.Inversion.{SameState, bind-ok, raise_if-ok}
use equilibra.Storage.Querier.{
  balance, get_account_balance, create_ledger_entry, create_outbox_event, entry_row, outbox_row,
}
use equilibra.Storage.Querier.Inversion.{
  get_account_balance-ok, EntryAdded, EventAdded, create_ledger_entry-ok, create_outbox_event-ok,
}
use equilibra.Service.Types.{TransferParams, Result, new_result}
use equilibra.Service.Core.{debit_event, credit_event, entry_type_posted, is_overdrawn, post}

-- The tables after a posting.
abbrev pub posted_db : TransferParams → Account → Account → Transaction → Session → Db
posted_db p source destination created s = record s.db {
  transactions = s.db.transactions ++ created ∷ [];
  entries =
      (s.db.entries ++ entry_row s.sequences.entries created.id p.from (neg64 p.amount) s.now ∷ [])
      ++ entry_row (s.sequences.entries + 1) created.id p.to p.amount s.now ∷ [];
  outbox =
      (s.db.outbox
        ++ outbox_row s.sequences.outbox (s.uuid s.sequences.outbox) entry_type_posted
            (key (credit_event p destination created)) (credit_event p destination created) s.now
          ∷ [])
      ++ outbox_row (s.sequences.outbox + 1) (s.uuid (s.sequences.outbox + 1)) entry_type_posted
          (key (debit_event p source created)) (debit_event p source created) s.now
        ∷ [];
}

pub ok-injective :
    {A : Type 0} {a b : A} {s t : Session}
    → ◌≡◌ {A = Outcome A × Session} (ok a, s) (ok b, t)
    → (a ≡ b) × (s ≡ t)
ok-injective h = (cc, cc)

-- The same from the session behind the insertion, where the new transaction already stands.
abbrev pub with_postings : TransferParams → Account → Account → Transaction → Session → Db
with_postings p source destination created s = record s.db {
  entries =
      (s.db.entries ++ entry_row s.sequences.entries created.id p.from (neg64 p.amount) s.now ∷ [])
      ++ entry_row (s.sequences.entries + 1) created.id p.to p.amount s.now ∷ [];
  outbox =
      (s.db.outbox
        ++ outbox_row s.sequences.outbox (s.uuid s.sequences.outbox) entry_type_posted
            (key (credit_event p destination created)) (credit_event p destination created) s.now
          ∷ [])
      ++ outbox_row (s.sequences.outbox + 1) (s.uuid (s.sequences.outbox + 1)) entry_type_posted
          (key (debit_event p source created)) (debit_event p source created) s.now
        ∷ [];
}

-- Two entries and two events, one after the other.
postings-db :
    (p : TransferParams) (source destination : Account) (created : Transaction)
    {s s1 s2 s3 s4 s5 : Session}
    → SameState s s1
    → EntryAdded created.id p.from (neg64 p.amount) s1 s2
    → EntryAdded created.id p.to p.amount s2 s3
    → EventAdded entry_type_posted
        (key (credit_event p destination created))
        (credit_event p destination created)
        s3
        s4
    → EventAdded entry_type_posted
        (key (debit_event p source created))
        (debit_event p source created)
        s4
        s5
    → s5.db ≡ with_postings p source destination created s
postings-db p source destination created same d2 d3 d4 d5 = cc

pub record PostDone (p : TransferParams) (source destination : Account) (created : Transaction)
    (s : Session) (r : Result) (t : Session) : Type 0 where
  pub fits : in_int64 (balance p.from s.db.entries) ≡ true
  pub covered : is_overdrawn source p (balance p.from s.db.entries) ≡ false
  pub result : r ≡ new_result created
  pub db : t.db ≡ with_postings p source destination created s

pub post-ok :
    (p : TransferParams) (source destination : Account) (created : Transaction) (s : Session)
    {r : Result} {t : Session}
    → post p source destination created s ≡ (ok r, t)
    → PostDone p source destination created s r t
unfolding post
post-ok p source destination created s h =
    let (b, s1, e1, h1) = bind-ok (get_account_balance p.from) _ s h in
    let (same, value, fits) = get_account_balance-ok p.from s e1 in
    let (covered, h2) = raise_if-ok (is_overdrawn source p b) not_enough _ s1 h1 in
    let debit = create_ledger_entry created.id p.from (neg64 p.amount) in
    let (_, s2, e2, h3) = bind-ok debit _ s1 h2 in
    let d2 = create_ledger_entry-ok _ _ _ s1 e2 in
    let (_, s3, e3, h4) = bind-ok (create_ledger_entry created.id p.to p.amount) _ s2 h3 in
    let d3 = create_ledger_entry-ok _ _ _ s2 e3 in
    let ce = credit_event p destination created in
    let de = debit_event p source created in
    let (_, s4, e4, h5) = bind-ok (create_outbox_event entry_type_posted (key ce) ce) _ s3 h4 in
    let d4 = create_outbox_event-ok _ _ _ s3 e4 in
    let (_, s5, e5, h6) = bind-ok (create_outbox_event entry_type_posted (key de) de) _ s4 h5 in
    let d5 = create_outbox_event-ok _ _ _ s4 e5 in
    record {
      fits = rw value at fits;
      covered = rw value at covered;
      result = sym (ok-injective h6).0;
      db =
          ap (λ u. u.db) (sym (ok-injective h6).1)
          ∙ postings-db p source destination created same d2 d3 d4 d5;
    }
