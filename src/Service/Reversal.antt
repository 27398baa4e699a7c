-- ===== src/Service/Reversal.antt =====
-- A transaction is reversed at most once; and a reversal under a key that is taken.
pub mod TakenKey
use equilibra.Common.{
  ◌≡◌, ◌≢◌, sym, ap, ◌∙◌, subst, String, true, false, List, [], ◌∷◌, ◌++◌, some, arith, inl, inr,
  map, find, find-append, find-test, some_injective, Bool-cases, if◌then◌else◌,
}
use equilibra.Common.Int.{ℤ, ◌==ℤ◌}
use equilibra.Errors.{ok}
use equilibra.Storage.Schema.{Transaction, Status, is_completed}
use equilibra.Storage.Session.{Db, Session}
use equilibra.Storage.Querier.{transaction_with_id, set_status, set_status_row}
use equilibra.Storage.WithTx.{World, Conditions, open_session}
use equilibra.Service.Types.{TransferParams, Result}
use equilibra.Service.Core.Inversion.{Succeeds}
use equilibra.Service.Operations
use equilibra.Service.Operations.Inversion.{reverse_params}
use equilibra.Service.Requests.{Request, serve, AllTyped, AnyType, AllOfType-AnyType}
use equilibra.Service.Requests.Inversion.{reverse-ok}
use equilibra.Service.Requests.Induction.{Keeps, serve-keeps, Succeeds-keeps, found_amount}
use equilibra.Service.DoubleEntry.{IsBalanced, IsBalanced-Keeps}

-- A row that is found stays found when rows are appended, and when statuses are set.
found-append :
    (id : ℤ) (ts us : List Transaction) {tx : Transaction}
    → transaction_with_id id ts ≡ some tx
    → transaction_with_id id (ts ++ us) ≡ some tx
unfolding transaction_with_id
found-append id ts us h = find-append (λ t. t.id ==ℤ id) ts us ∙ rw h

id-set_status_row : (j : ℤ) (st : Status) (t : Transaction) → (set_status_row j st t).id ≡ t.id
id-set_status_row j st t = ground arith

found-set_status :
    (id j : ℤ) (st : Status) (ts : List Transaction) {tx : Transaction}
    → transaction_with_id id ts ≡ some tx
    → transaction_with_id id (set_status j st ts) ≡ some (set_status_row j st tx)
unfolding transaction_with_id set_status find
found-set_status id j st [] h = cc
found-set_status id j st (t ∷ ts) h = elim (Bool-cases (t.id ==ℤ id)) [
  | inl here ↦
      let same : t ≡ _ = some_injective (rw here at h) in
      (λ i.
        if id-set_status_row j st t i ==ℤ id
        then some (set_status_row j st t)
        else find (λ x. x.id ==ℤ id) (map (set_status_row j st) ts))
      ∙ rw here (ap (λ x. some (set_status_row j st x)) same)
  | inr there ↦
      (λ i.
        if id-set_status_row j st t i ==ℤ id
        then some (set_status_row j st t)
        else find (λ x. x.id ==ℤ id) (map (set_status_row j st) ts))
      ∙ rw there (found-set_status id j st ts (rw there at h))
]

-- The transaction is there, and is no longer completed.
pub record IsSettled (id : ℤ) (db : Db) : Type 0 where
  pub balanced : IsBalanced db
  pub tx : Transaction
  pub found : transaction_with_id id db.transactions ≡ some tx
  pub closed : is_completed tx.status ≡ false

closed-set_status :
    (j : ℤ) (tx : Transaction)
    → is_completed tx.status ≡ false
    → is_completed (set_status_row j Status.reversed tx).status ≡ false
closed-set_status j tx h = ground arith

IsSettled-Keeps : (id : ℤ) → Keeps AnyType (IsSettled id)
IsSettled-Keeps id = record {
  post = λ p s r t any typed i h. record {
    balanced = IsBalanced-Keeps.post p s r t any typed i h.balanced;
    tx = h.tx;
    found = rw i.db (found-append id s.db.transactions (i.created ∷ []) h.found);
    closed = h.closed;
  };
  status = λ j db h. record {
    balanced = IsBalanced-Keeps.status j db h.balanced;
    tx = set_status_row j Status.reversed h.tx;
    found = found-set_status id j Status.reversed db.transactions h.found;
    closed = closed-set_status j h.tx h.closed;
  };
  stored = λ db h. h.balanced.typed;
}

set_row_closed :
    (id : ℤ) (tx : Transaction)
    → (tx.id ==ℤ id) ≡ true
    → is_completed (set_status_row id Status.reversed tx).status ≡ false
set_row_closed id tx h = ground arith

Succeeds-found :
    (p : TransferParams) (s : Session) (r : Result) (t : Session) (id : ℤ) {tx : Transaction}
    → Succeeds p s r t
    → transaction_with_id id s.db.transactions ≡ some tx
    → transaction_with_id id t.db.transactions ≡ some tx
Succeeds-found p s r t id (inl i) h = rw i.db (found-append id s.db.transactions (i.created ∷ []) h)
Succeeds-found p s r t id (inr i) h = rw i.db h

id_of_found :
    (id : ℤ) (ts : List Transaction) {tx : Transaction}
    → transaction_with_id id ts ≡ some tx
    → (tx.id ==ℤ id) ≡ true
unfolding transaction_with_id
id_of_found id ts h = find-test (λ t. t.id ==ℤ id) ts h

-- What a reversal leaves is settled.
reverse-IsSettled :
    (c : Conditions) (id : ℤ) (key : String) (w : World) (r : Result) (w' : World)
    → Operations.reverse c id key w ≡ (ok r, w')
    → IsBalanced w.db
    → IsSettled id w'.db
reverse-IsSettled c id key w r w' h balanced =
    let (t, i, db) = reverse-ok c id key w h in
    let p = reverse_params i.tx key in
    let s = open_session c w in
    let typed = found_amount id w.db.transactions balanced.typed i.found in
    let kept = Succeeds-keeps IsBalanced-Keeps p s r i.middle tt typed i.done balanced in
    subst (IsSettled id) (sym (db ∙ i.status.db)) (record {
      balanced = IsBalanced-Keeps.status id i.middle.db kept;
      tx = set_status_row id Status.reversed i.tx;
      found =
          found-set_status id id Status.reversed i.middle.db.transactions
            (Succeeds-found p s r i.middle id i.done i.found);
      closed = set_row_closed id i.tx (id_of_found id w.db.transactions i.found);
    })

settled_refuses :
    (d : Conditions) (id : ℤ) (key : String) (w : World) (r : Result) (w' : World)
    → IsSettled id w.db
    → Operations.reverse d id key w ≢ (ok r, w')
settled_refuses d id key w r w' h e =
    let (t, i, db) = reverse-ok d id key w e in
    let same = some_injective (sym h.found ∙ i.found) in cc (i.was_completed, h.closed, same)

-- From balanced tables: once a reversal of a transaction has succeeded, no reversal of the same
-- transaction succeeds again, whatever key it has, whatever requests with int64 amounts are served
-- in between, and whatever conditions hold.
pub reverse_once :
    (c d : Conditions) (id : ℤ) (key again : String) (w : World) (r : Result) (w' : World)
    (qs : List (Conditions × Request)) (x : Result) (v : World)
    → IsBalanced w.db
    → AllTyped qs
    → Operations.reverse c id key w ≡ (ok r, w')
    → Operations.reverse d id again (serve qs w') ≢ (ok x, v)
reverse_once c d id key again w r w' qs x v balanced typed h =
    settled_refuses d id again (serve qs w') x v (
      serve-keeps (IsSettled-Keeps id) qs w' (AllOfType-AnyType qs) typed
        (reverse-IsSettled c id key w r w' h balanced))
