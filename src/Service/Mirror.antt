-- ===== src/Service/Mirror.antt =====
-- The outbox mirrors the ledger: one event for each entry, and no other.
use mathlib.Core.List.{Perm, append_assoc, map-append}
use mathlib.Core.List.Perm
use equilibra.Common.{ℕ, ◌≡◌, refl, String, List, [], ◌∷◌, ◌++◌, Option, none, some, map}
use equilibra.Common.Int.{neg64, IsInt64}
use equilibra.Events.{EntryPosted, marshal, key, format_int}
use equilibra.Events.Document.{Json, num, obj, member}
use equilibra.Storage.Schema.{EntryRow}
use equilibra.Storage.Session.{Db, Session, OutboxRow}
use equilibra.Storage.Querier.{outbox_row}
use equilibra.Storage.WithTx.{World, Conditions}
use equilibra.Service.Types.{TransferParams, Result}
use equilibra.Service.Core.Inversion.{IsPosted}
use equilibra.Service.Requests.{Request, serve, AllTyped, AnyType, AllOfType-AnyType}
use equilibra.Service.Requests.Induction.{Keeps, serve-keeps}
use equilibra.Service.DoubleEntry.{IsBalanced, IsBalanced-Keeps}

-- What a consumer reads of a posting: transaction, account, amount and partition key.
abbrev pub View : Type 0
View = Option Json × Option Json × Option Json × List ℕ

abbrev pub entry_view : EntryRow → View
entry_view e = (
  some (num e.transaction_id),
  some (num e.account_id),
  some (num e.amount),
  format_int e.account_id,
)

abbrev json_view : Json → List ℕ → View
json_view (obj fields) k =
    (member "transaction_id" fields, member "account_id" fields, member "amount" fields, k)
json_view _ k = (none, none, none, k)

abbrev pub event_view : OutboxRow → View
event_view o = json_view o.payload o.partition_key

pub record IsMirrored (db : Db) : Type 0 where
  pub balanced : IsBalanced db
  pub same : Perm (map event_view db.outbox) (map entry_view db.entries)

event_view-row :
    (id : ℕ) (uuid kind : String) (e : EntryPosted) (now : ℕ)
    → event_view (outbox_row id uuid kind (key e) e now) ≡ (
      some (num e.transaction_id),
      some (num e.account_id),
      some (num e.amount),
      format_int e.account_id,
    )
unfolding marshal member key
event_view-row id uuid kind e now = refl

-- Two more items on both sides, in either order.
pair_perm {ℓ} :
    {A : Type ℓ} (a b : A) {xs ys : List A}
    → Perm xs ys
    → Perm ((xs ++ a ∷ []) ++ b ∷ []) ((ys ++ b ∷ []) ++ a ∷ [])
pair_perm a b {xs} {ys} h =
    rw (append_assoc xs (a ∷ []) (b ∷ []), append_assoc ys (b ∷ []) (a ∷ []))
      (Perm.append h (Perm.swap b a []))

post-IsMirrored :
    (p : TransferParams) (s : Session) (r : Result) (t : Session)
    → AnyType p.type
    → IsInt64 p.amount
    → IsPosted p s r t
    → IsMirrored s.db
    → IsMirrored t.db
post-IsMirrored p s r t any typed i h = record {
  balanced = IsBalanced-Keeps.post p s r t any typed i h.balanced;
  same = rw (i.db) (
      simp (map-append, event_view-row)
        (pair_perm (some (num i.created.id), some (num p.to), some (num p.amount), format_int p.to)
          (
            some (num i.created.id),
            some (num p.from),
            some (num (neg64 p.amount)),
            format_int p.from,
          )
          h.same));
}

IsMirrored-Keeps : Keeps AnyType IsMirrored
IsMirrored-Keeps = record {
  post = post-IsMirrored;
  status = λ id db h. record { balanced = IsBalanced-Keeps.status id db h.balanced; same = h.same };
  stored = λ db h. h.balanced.typed;
}

-- From tables whose outbox mirrors the ledger, after any requests with int64 amounts, under any
-- faults and commits: the outbox holds, up to order, one event for each ledger entry and no other,
-- with the entry's transaction, account and amount in its payload and the account's decimal form
-- as its partition key.
pub serve-IsMirrored :
    (qs : List (Conditions × Request)) (w : World)
    → AllTyped qs
    → IsMirrored w.db
    → IsMirrored (serve qs w).db
serve-IsMirrored qs w typed h = serve-keeps IsMirrored-Keeps qs w (AllOfType-AnyType qs) typed h
