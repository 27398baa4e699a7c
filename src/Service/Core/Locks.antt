-- ===== src/Service/Core/Locks.antt =====
-- The order in which `transfer` locks the two accounts.
use equilibra.Common.{
  ◌≡◌, refl, ap, ◌∙◌, ◌⊎◌, inl, inr, Bool, true, false, List, [], ◌∷◌, ◌++◌, not, str_eq, arith,
  if◌then◌else◌,
}
use equilibra.Common.Int.{ℤ, ◌==ℤ◌, min_ℤ, max_ℤ, neg64}
use equilibra.Errors.{Outcome, ok, err, not_enough, currency_mismatch}
use equilibra.Events.{EntryPosted, key}
use equilibra.Storage.Schema.{Account, Transaction}
use equilibra.Storage.Session.{Session, Lock, Exec, continue, raise_if, ◌>>=◌}
use equilibra.Storage.Session.Locks.{
  LocksNothing, LocksNothing-pure, LocksNothing-raise_if, LocksNothing-bind,
}
use equilibra.Storage.Querier.{get_account_for_update, create_transaction, create_outbox_event}
use equilibra.Storage.Querier.Locks.{
  LocksNothing-get_account_balance, LocksNothing-get_transaction, LocksNothing-create_transaction,
  LocksNothing-create_ledger_entry, LocksNothing-create_outbox_event, get_account_for_update-locks,
  get_account_for_update-locks_nothing,
}
use equilibra.Service.Types.{TransferParams, Result, new_result}
use equilibra.Service.Core.{
  transfer, transfer_locked, lock_for_transfer, or_lock_error, after_create, post, replay,
  is_overdrawn, new_transaction, debit_event, credit_event, entry_type_posted,
}

LocksNothing-post :
    (p : TransferParams) (source destination : Account) (created : Transaction)
    → LocksNothing (post p source destination created)
unfolding post
LocksNothing-post p source destination created =
    let event : (e : EntryPosted) → LocksNothing (create_outbox_event entry_type_posted (key e) e) =
      λ e. LocksNothing-create_outbox_event entry_type_posted (key e) e in
    LocksNothing-bind _ _ (LocksNothing-get_account_balance p.from) (λ b.
      LocksNothing-bind _ _ (LocksNothing-raise_if (is_overdrawn source p b) not_enough) (λ _.
        LocksNothing-bind _ _ (LocksNothing-create_ledger_entry created.id p.from (neg64 p.amount))
          (λ _.
            LocksNothing-bind _ _ (LocksNothing-create_ledger_entry created.id p.to p.amount) (λ _.
              LocksNothing-bind _ _ (event (credit_event p destination created)) (λ _.
                LocksNothing-bind _ _ (event (debit_event p source created))
                  (λ _. LocksNothing-pure (new_result created)))))))

LocksNothing-replay : (p : TransferParams) → LocksNothing (replay p)
unfolding replay
LocksNothing-replay p =
    LocksNothing-bind _ _ (LocksNothing-get_transaction p.idempotency_key)
      (λ prev. record { at = λ s. ground arith })

after_create-locks :
    (p : TransferParams) (source destination : Account) (r : Outcome Transaction × Session)
    → (after_create p source destination r).1.locked ≡ r.1.locked
unfolding after_create
after_create-locks p source destination (ok created, s) =
    (LocksNothing-post p source destination created).at s
after_create-locks p source destination (err e, s) = ground (arith, (LocksNothing-replay p).at s)

LocksNothing-transfer_locked :
    (p : TransferParams) (source destination : Account)
    → LocksNothing (transfer_locked p source destination)
unfolding transfer_locked
LocksNothing-transfer_locked p source destination =
    let different = not (str_eq source.currency destination.currency) in
    let create = create_transaction (new_transaction p) in
    LocksNothing-bind (raise_if different currency_mismatch)
      (λ _ s. after_create p source destination (create s))
      (LocksNothing-raise_if different currency_mismatch)
      (λ _. record {
        at = λ s.
            after_create-locks p source destination (create s)
            ∙ (LocksNothing-create_transaction (new_transaction p)).at s;
      })

-- One account's lock: taken, or the step failed and took none.
abbrev Locks : {A : Type 0} → ℤ → Session → Outcome A × Session → Type 0
Locks id s (ok a, t) = t.locked ≡ s.locked ++ Lock.account id ∷ []
Locks id s (err e, t) = t.locked ≡ s.locked

or_lock_error-Locks :
    (p : TransferParams) (id : ℤ) (s : Session) (r : Outcome Account × Session)
    → get_account_for_update id s ≡ r
    → Locks id s (or_lock_error p id r)
or_lock_error-Locks p id s (ok a, t) h = get_account_for_update-locks id s h
or_lock_error-Locks p id s (err e, t) h = get_account_for_update-locks_nothing id s h

lock_for_transfer-Locks :
    (p : TransferParams) (id : ℤ) (s : Session) → Locks id s (lock_for_transfer p id s)
unfolding lock_for_transfer
lock_for_transfer-Locks p id s = or_lock_error-Locks p id s (get_account_for_update id s) refl

abbrev one_locked : TransferParams → Session → List Lock
one_locked p s = s.locked ++ Lock.account (min_ℤ p.from p.to) ∷ []

abbrev both_locked : TransferParams → Session → List Lock
both_locked p s = one_locked p s ++ Lock.account (max_ℤ p.from p.to) ∷ []

-- The locks that a run ends with.
abbrev pub InOrder : TransferParams → Session → Outcome Result × Session → Type 0
InOrder p s (ok r, t) = t.locked ≡ both_locked p s
InOrder p s (err e, t) =
    (t.locked ≡ s.locked) ⊎ ((t.locked ≡ one_locked p s) ⊎ (t.locked ≡ both_locked p s))

both-InOrder :
    (p : TransferParams) (s : Session) (r : Outcome Result × Session)
    → r.1.locked ≡ both_locked p s
    → InOrder p s r
both-InOrder p s (ok r, t) h = h
both-InOrder p s (err e, t) h = inr (inr h)

after_both-InOrder :
    (p : TransferParams) (s t : Session) (k : Account → Exec Result) (r : Outcome Account × Session)
    → ((a : Account) → LocksNothing (k a))
    → t.locked ≡ one_locked p s
    → Locks (max_ℤ p.from p.to) t r
    → InOrder p s (continue k r)
after_both-InOrder p s t k (ok b, u) nothing one h =
    both-InOrder p s (k b u)
      ((nothing b).at u ∙ h ∙ ap (λ l. l ++ Lock.account (max_ℤ p.from p.to) ∷ []) one)
after_both-InOrder p s t k (err e, u) nothing one h = inr (inl (h ∙ one))

after_first-InOrder :
    (p : TransferParams) (s : Session) (k : Account → Account → Exec Result)
    (r : Outcome Account × Session)
    → ((a b : Account) → LocksNothing (k a b))
    → Locks (min_ℤ p.from p.to) s r
    → InOrder p s (continue (λ a. lock_for_transfer p (max_ℤ p.from p.to) >>= k a) r)
after_first-InOrder p s k (ok a, t) nothing h =
    after_both-InOrder p s t (k a) (lock_for_transfer p (max_ℤ p.from p.to) t) (nothing a) h
      (lock_for_transfer-Locks p (max_ℤ p.from p.to) t)
after_first-InOrder p s k (err e, t) nothing h = inl h

either-LocksNothing :
    (b : Bool) (m n : Exec Result)
    → LocksNothing m
    → LocksNothing n
    → LocksNothing (if b then m else n)
either-LocksNothing true m n hm hn = hm
either-LocksNothing false m n hm hn = hn

-- `transfer` locks the account with the smaller id before the other and nothing else: a run that
-- succeeds has locked both in this order, and one that fails none, the first, or both.
pub transfer-InOrder : (p : TransferParams) (s : Session) → InOrder p s (transfer p s)
unfolding transfer
transfer-InOrder p s =
    let first = min_ℤ p.from p.to in
    after_first-InOrder p s
      (λ a b. if first ==ℤ p.from then transfer_locked p a b else transfer_locked p b a)
      (lock_for_transfer p first s)
      (λ a b.
        either-LocksNothing (first ==ℤ p.from) _ _ (LocksNothing-transfer_locked p a b)
          (LocksNothing-transfer_locked p b a))
      (lock_for_transfer-Locks p first s)
