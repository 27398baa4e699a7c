-- ===== src/Handler/Posts/Moved.antt =====
-- What the answers 201 and 200 to a POST request say of the balances.
use equilibra.Common.{
  ◌≡◌, refl, Bool, true, false, String, Option, All, ◌≤◌, ◌⊎◌, inl, inr, arith, if◌then◌else◌,
}
use equilibra.Common.Int.{ℤ, IsInt64}
use equilibra.Errors.{Error, Outcome, ok, err}
use equilibra.Storage.Schema.{Transaction}
use equilibra.Storage.Querier.{balance}
use equilibra.Storage.WithTx.{World, Conditions}
use equilibra.Service.Types.{Result}
use equilibra.Service.Movement.{moved, handle-moves}
use equilibra.Service.Requests.{handle}
use equilibra.Handler.Requests.{TransactionResponse, new_response}
use equilibra.Handler.Responses.{
  Response, Envelope, handle_error, handle_root, root, of_error, write_transaction,
}
use equilibra.Handler.Handlers.{answered, answer}
use equilibra.Handler.Posts.{Post, handle_post, IsTypedPost}
use equilibra.Handler.Posts.Rule.{Admits, handle_post-rule}

-- The body is a transaction, and every balance is what it says.
pub record Moves (w : World) (x : Response) (w' : World) : Type 0 where
  pub shown : TransactionResponse
  pub body : x.body ≡ Envelope.transaction shown
  pub balances :
      (a : ℤ)
      → balance a w'.db.entries
        ≡ moved shown.source_id shown.destination_id shown.amount a (balance a w.db.entries)

pub record Stays (w : World) (x : Response) (w' : World) : Type 0 where
  pub shown : TransactionResponse
  pub body : x.body ≡ Envelope.transaction shown
  pub balances : (a : ℤ) → balance a w'.db.entries ≡ balance a w.db.entries

-- Created, and the balances moved; repeated, and they are as they were; or an error.
abbrev pub Tells : World → Response × World → Type 0
Tells w (x, w') =
    ((x.status ≡ 201) × Moves w x w') ⊎ (((x.status ≡ 200) × Stays w x w') ⊎ (400 ≤ x.status))

Tells-Admits : (w : World) → Admits w (Tells w)
Tells-Admits w = record {
  bad = λ x e. inr (inr (omega (arith, e)));
  missing = λ x e. inr (inr (omega (arith, e)));
}

root_status : (e : Error) → 400 ≤ (handle_root (root e) (of_error e)).status
root_status e = ground arith

written-Tells :
    (w : World) (r : Result) (w' : World) (b : Bool)
    → r.replayed ≡ b
    → ((a : ℤ)
        → balance a w'.db.entries ≡ (
            if b
            then balance a w.db.entries
            else moved r.source_id r.destination_id r.amount a (balance a w.db.entries)))
    → Tells w (write_transaction r, w')
unfolding write_transaction new_response
written-Tells w r w' true is h =
    inr (inl (rw is refl, record { shown = new_response r; body = refl; balances = h }))
written-Tells w r w' false is h =
    inl (rw is refl, record { shown = new_response r; body = refl; balances = h })

answered-Tells :
    (w : World) (o : Outcome Result × World)
    → ((r : Result) (w' : World)
        → o ≡ (ok r, w')
        → (a : ℤ)
        → balance a w'.db.entries ≡ (
            if r.replayed
            then balance a w.db.entries
            else moved r.source_id r.destination_id r.amount a (balance a w.db.entries)))
    → Tells w (answered o)
unfolding answer handle_error
answered-Tells w (ok r, w') h = written-Tells w r w' r.replayed refl (h r w' refl)
answered-Tells w (err e, w') h = inr (inr (root_status e))

-- While decoded and stored amounts are int64, a POST request is answered in one of three ways:
-- with status 201 and a transaction, and every account's balance changed by exactly what that
-- transaction says; with status 200 and a transaction, and every account's balance is as it was;
-- or with a status of 400 or more.
pub handle_post-Tells :
    (parse_int : String → Option ℤ) (c : Conditions) (p : Post) (w : World)
    → IsTypedPost p
    → All (λ (t : Transaction). IsInt64 t.amount) w.db.transactions
    → Tells w (handle_post parse_int c p w)
handle_post-Tells parse_int c p w typed stored =
    handle_post-rule w (Tells w) (Tells-Admits w) parse_int c p typed
      (λ q t. answered-Tells w (handle c q w) (λ r w' h a. handle-moves c q w r w' a t stored h))
