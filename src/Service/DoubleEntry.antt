-- ===== src/Service/DoubleEntry.antt =====
-- Double entry: the entries of every transaction sum to zero, and so does the whole ledger.
use equilibra.Common.{
  ℕ, ◌≡◌, sym, subst, List, [], ◌∷◌, ◌++◌, All, All-append, arith, if◌then◌else◌,
}
use equilibra.Common.Int.{ℤ, pos, ◌+ℤ◌, ◌<ℤ◌, ◌==ℤ◌, IsInt64, neg64, neg64-eq-sub, int_laws}
use equilibra.Storage.Schema.{Transaction, EntryRow, Status}
use equilibra.Storage.Session.{Db, Session}
use equilibra.Storage.Querier.{entry_row, set_status}
use equilibra.Storage.WithTx.{World, Conditions}
use equilibra.Service.Types.{TransferParams, Result}
use equilibra.Service.Core.Inversion.{IsPosted}
use equilibra.Service.Requests.{Request, serve, AllTyped, AnyType, AllOfType-AnyType}
use equilibra.Service.Requests.Induction.{Keeps, serve-keeps}

-- The sum of the entries of one transaction.
abbrev pub transaction_sum : ℤ → List EntryRow → ℤ
transaction_sum t [] = pos 0
transaction_sum t (e ∷ es) =
    if e.transaction_id ==ℤ t then e.amount +ℤ transaction_sum t es else transaction_sum t es

-- The sum of all entries.
abbrev pub total : List EntryRow → ℤ
total [] = pos 0
total (e ∷ es) = e.amount +ℤ total es

transaction_sum-append :
    (t : ℤ) (xs ys : List EntryRow)
    → transaction_sum t (xs ++ ys) ≡ transaction_sum t xs +ℤ transaction_sum t ys
transaction_sum-append t [] ys = omega int_laws
transaction_sum-append t (e ∷ es) ys = grind (int_laws, transaction_sum-append t es ys)

total-append : (xs ys : List EntryRow) → total (xs ++ ys) ≡ total xs +ℤ total ys
total-append [] ys = omega int_laws
total-append (e ∷ es) ys = rw (total-append es ys) (omega int_laws)

pub record IsBalanced (db : Db) : Type 0 where
  pub typed : All (λ (t : Transaction). IsInt64 t.amount) db.transactions
  pub by_transaction : (t : ℤ) → transaction_sum t db.entries ≡ pos 0
  pub overall : total db.entries ≡ pos 0

-- A pair of opposite entries of one transaction adds zero to every sum.
pair-by_transaction :
    (t id a b amount : ℤ) (n m now : ℕ) (es : List EntryRow)
    → pos 0 <ℤ amount
    → IsInt64 amount
    → transaction_sum t
        ((es ++ entry_row n id a (neg64 amount) now ∷ []) ++ entry_row m id b amount now ∷ [])
      ≡ transaction_sum t es
pair-by_transaction t id a b amount n m now es p i =
    simp transaction_sum-append (grind (int_laws, neg64-eq-sub amount p i))

pair-total :
    (id a b amount : ℤ) (n m now : ℕ) (es : List EntryRow)
    → pos 0 <ℤ amount
    → IsInt64 amount
    → total ((es ++ entry_row n id a (neg64 amount) now ∷ []) ++ entry_row m id b amount now ∷ [])
      ≡ total es
pair-total id a b amount n m now es p i =
    simp total-append (grind (int_laws, neg64-eq-sub amount p i))

typed-set_status :
    (id : ℤ) (s : Status) (ts : List Transaction)
    → All (λ (t : Transaction). IsInt64 t.amount) ts
    → All (λ (t : Transaction). IsInt64 t.amount) (set_status id s ts)
unfolding set_status
typed-set_status id s [] h = tt
typed-set_status id s (t ∷ ts) h = (ground arith, typed-set_status id s ts h.1)

post-IsBalanced :
    (p : TransferParams) (s : Session) (r : Result) (t : Session)
    → AnyType p.type
    → IsInt64 p.amount
    → IsPosted p s r t
    → IsBalanced s.db
    → IsBalanced t.db
post-IsBalanced p s r t _ i done h = subst IsBalanced (sym done.db) (record {
  typed = All-append _ s.db.transactions _ h.typed (rw done.row i, tt);
  by_transaction = λ x.
      rw
        (pair-by_transaction x done.created.id p.from p.to p.amount _ _ s.now s.db.entries
          done.positive i)
        (h.by_transaction x);
  overall =
      rw (pair-total done.created.id p.from p.to p.amount _ _ s.now s.db.entries done.positive i)
        h.overall;
})

pub IsBalanced-Keeps : Keeps AnyType IsBalanced
IsBalanced-Keeps = record {
  post = post-IsBalanced;
  status = λ id db h. record {
    typed = typed-set_status id Status.reversed db.transactions h.typed;
    by_transaction = h.by_transaction;
    overall = h.overall;
  };
  stored = λ db h. h.typed;
}

-- From balanced tables, after any requests with int64 amounts, under any faults and commits: the
-- entries of every transaction sum to zero, and so do all entries together.
pub serve-IsBalanced :
    (qs : List (Conditions × Request)) (w : World)
    → AllTyped qs
    → IsBalanced w.db
    → IsBalanced (serve qs w).db
serve-IsBalanced qs w typed h = serve-keeps IsBalanced-Keeps qs w (AllOfType-AnyType qs) typed h
