-- ===== src/Service/Movement.antt =====
-- What a request that succeeds moves between the balances.
use equilibra.Common.{
  ℕ, ◌≡◌, sym, ap, subst, String, Bool, true, false, List, [], ◌∷◌, ◌++◌, All, arith, some, inl,
  inr, find-test, str_eq, eq_iff, ◌&&◌, if◌then◌else◌,
}
use equilibra.Common.Int.{
  ℤ, pos, ◌+ℤ◌, ◌-ℤ◌, ◌<ℤ◌, ◌==ℤ◌, ==ℤ_iff, IsInt64, neg64, neg64-eq-sub, int_laws,
}
use equilibra.Errors.{ok}
use equilibra.Storage.Schema.{Transaction, EntryRow}
use equilibra.Storage.Session.{Session}
use equilibra.Storage.Querier.{entry_row, balance, transaction_with_key}
use equilibra.Storage.WithTx.{World, Conditions}
use equilibra.Service.Types.{TransferParams, Result, new_result, compare_transactions}
use equilibra.Service.Core.{new_transaction}
use equilibra.Service.Core.Inversion.{IsPosted, IsReplayed, Succeeds}
use equilibra.Service.Requests.{Request, handle, IsTyped}
use equilibra.Service.Requests.Inversion.{handle-CoreRan}

-- Every balance after a movement of `amount` from one account to another.
abbrev pub moved : ℤ → ℤ → ℤ → ℤ → ℤ → ℤ
moved from to amount a before =
    let debited = if from ==ℤ a then before -ℤ amount else before in
    if to ==ℤ a then debited +ℤ amount else debited

balance-append :
    (a : ℤ) (xs ys : List EntryRow) → balance a (xs ++ ys) ≡ balance a xs +ℤ balance a ys
unfolding balance
balance-append a [] ys = omega int_laws
balance-append a (e ∷ es) ys = grind (int_laws, balance-append a es ys)

pub balance-pair :
    (a from to id amount : ℤ) (n m now : ℕ) (es : List EntryRow)
    → pos 0 <ℤ amount
    → IsInt64 amount
    → balance a
        ((es ++ entry_row n id from (neg64 amount) now ∷ []) ++ entry_row m id to amount now ∷ [])
      ≡ moved from to amount a (balance a es)
unfolding balance
balance-pair a from to id amount n m now es p i =
    simp balance-append (grind (int_laws, neg64-eq-sub amount p i))

-- A posting moves the amount.
pub IsPosted-moves :
    (p : TransferParams) (s : Session) (r : Result) (t : Session) (a : ℤ)
    → IsInt64 p.amount
    → IsPosted p s r t
    → balance a t.db.entries ≡ moved p.from p.to p.amount a (balance a s.db.entries)
IsPosted-moves p s r t a typed i =
    rw (ap (λ d. d.entries) i.db)
      (balance-pair a p.from p.to i.created.id p.amount _ _ s.now s.db.entries i.positive typed)

both_true : {a b : Bool} → (a && b) ≡ true → (a ≡ true) × (b ≡ true)
both_true {a} {b} h = ground arith

compare_transactions-fields :
    (x y : Transaction)
    → compare_transactions x y ≡ true
    → (y.source_id ≡ x.source_id) × (y.destination_id ≡ x.destination_id) × (y.amount ≡ x.amount)
unfolding compare_transactions
compare_transactions-fields x y h =
    let (h1, c) = both_true h in
    let (a, b) = both_true h1 in
    (sym ((==ℤ_iff _ _).0 a), sym ((==ℤ_iff _ _).0 b), sym ((==ℤ_iff _ _).0 c))

key_found :
    (k : String) (ts : List Transaction) {x : Transaction}
    → transaction_with_key k ts ≡ some x
    → x.idempotency_key ≡ k
unfolding transaction_with_key
key_found k ts h = (eq_iff _ k).0 (find-test (λ t. str_eq t.idempotency_key k) ts h)

-- A result names the accounts, the amount and the key of the parameters, posted or replayed.
pub record Answers (p : TransferParams) (r : Result) : Type 0 where
  pub source : r.source_id ≡ p.from
  pub destination : r.destination_id ≡ p.to
  pub amount : r.amount ≡ p.amount
  pub key : r.idempotency_key ≡ p.idempotency_key

pub Succeeds-Answers :
    (p : TransferParams) (s : Session) (r : Result) (t : Session) → Succeeds p s r t → Answers p r
unfolding new_result
Succeeds-Answers p s r t (inl i) = record {
  source = cc (i.result, i.row);
  destination = cc (i.result, i.row);
  amount = cc (i.result, i.row);
  key = cc (i.result, i.row);
}
Succeeds-Answers p s r t (inr i) =
    let (a, b, c) = compare_transactions-fields (new_transaction p) i.prev i.matches in
    record {
      source = cc (i.result, a);
      destination = cc (i.result, b);
      amount = cc (i.result, c);
      key = cc (i.result, key_found p.idempotency_key s.db.transactions i.found);
    }

posted_flag :
    (p : TransferParams) (s : Session) (r : Result) (t : Session)
    → IsPosted p s r t
    → r.replayed ≡ false
unfolding new_result
posted_flag p s r t i = cc i.result

replayed_flag :
    (p : TransferParams) (s : Session) (r : Result) (t : Session)
    → IsReplayed p s r t
    → r.replayed ≡ true
replayed_flag p s r t i = cc i.result

-- A new result moves its amount from its source to its destination; a replayed one moves nothing.
pub Succeeds-moves :
    (p : TransferParams) (s : Session) (r : Result) (t : Session) (a : ℤ)
    → IsInt64 p.amount
    → Succeeds p s r t
    → balance a t.db.entries ≡ (
        if r.replayed
        then balance a s.db.entries
        else moved r.source_id r.destination_id r.amount a (balance a s.db.entries))
Succeeds-moves p s r t a typed (inl i) =
    let same = Succeeds-Answers p s r t (inl i) in
    rw (posted_flag p s r t i, same.source, same.destination, same.amount)
      (IsPosted-moves p s r t a typed i)
Succeeds-moves p s r t a typed (inr i) =
    rw (replayed_flag p s r t i) (ap (λ d. balance a d.entries) i.db)

-- For every request that succeeds and every account, where the request's amount and the stored
-- amounts are int64: a result that is not replayed moves exactly its amount from its source to its
-- destination and leaves every other balance alone; a replayed result leaves all balances alone.
pub handle-moves :
    (c : Conditions) (q : Request) (w : World) (r : Result) (w' : World) (a : ℤ)
    → IsTyped q
    → All (λ (t : Transaction). IsInt64 t.amount) w.db.transactions
    → handle c q w ≡ (ok r, w')
    → balance a w'.db.entries ≡ (
        if r.replayed
        then balance a w.db.entries
        else moved r.source_id r.destination_id r.amount a (balance a w.db.entries))
handle-moves c q w r w' a typed stored h =
    let i = handle-CoreRan c q w typed stored h in
    rw i.entries (
      subst
        (λ d. balance a i.final.db.entries ≡ (
          if r.replayed
          then balance a d.entries
          else moved r.source_id r.destination_id r.amount a (balance a d.entries)))
        i.started (Succeeds-moves i.params i.start r i.final a i.typed i.done))
