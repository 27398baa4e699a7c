-- ===== src/Relay/Delivery.antt =====
-- No outbox event is lost on its way: an event that the broker has not taken still waits.
use equilibra.Common.{
  ◌≡◌, refl, sym, subst, ◌⊎◌, inl, inr, ℕ, Bool, true, false, List, [], ◌∷◌, map, take, select,
  All-take, All-select, All-order_by, Bool-cases, if◌then◌else◌,
}
use mathlib.Core.List.{Memᴰ}
use mathlib.Core.List.Memᴰ
use equilibra.Common.Int.{ℤ, pos}
use equilibra.Errors.{Outcome, ok, err}
use equilibra.Storage.Session.{OutboxRow, Session, continue, pure}
use equilibra.Storage.Querier.Outbox.{
  OutboxEvent, scan_event, is_unpublished, older, unpublished, any_of, mark_outbox_events_published,
}
use equilibra.Storage.WithTx.{World, Conditions, Commit, with_tx, run_tx, finish, open_session}
use equilibra.Relay.{
  Message, Publisher, disassemble_events, pending_events, after_publish, publish_events, after_read,
  publish_body, publish_batch, Progress, after_batch, run,
}
use equilibra.Relay.Rows.{
  OnlyWithItsId, Waits, Taken, disassembled-Taken, marked-Memᴰ, marked-OnlyWithItsId, pending-rows,
  mark-outbox,
}

-- What the relay counts on: a batch that the publisher reports as sent has been taken as a whole
-- (`ProduceSync` without a first error).
abbrev pub IsReliable : Publisher → Type 0
IsReliable publish =
    (ms : List Message) (taken : List Message) → publish ms ≡ (ok tt, taken) → taken ≡ ms

-- The row still waits when the closure has succeeded, or its message has been taken.
abbrev Kept : OutboxRow → (Outcome ℤ × Session) × List Message → Type 0
Kept o ((ok n, s), taken) = Waits o s.db ⊎ Taken o taken
Kept o ((err e, s), taken) = Unit

module _ (o : OutboxRow) where
  mark-Kept :
      (ids : List ℤ) (n : ℕ) (taken : List Message) (s : Session) (r : Outcome (Unit {0}) × Session)
      → mark_outbox_events_published ids s ≡ r
      → (any_of ids o.id ≡ true → Taken o taken)
      → Waits o s.db
      → Kept o (continue (λ _. pure (pos n)) r, taken)
  mark-Kept ids n taken s (err e, t) h k w = tt
  mark-Kept ids n taken s (ok done, t) h k w = elim (Bool-cases (any_of ids o.id)) [
    | inl marked ↦ inr (k marked)
    | inr other ↦ inl (
        subst (λ rows. Memᴰ o rows × OnlyWithItsId o rows) (sym (mark-outbox ids s h))
          (
            marked-Memᴰ o ids s.now s.db.outbox other w.0,
            marked-OnlyWithItsId o ids s.now s.db.outbox other w.1,
          ))
  ]

  module _ (publish : Publisher) (reliable : IsReliable publish) where
    after_publish-Kept :
        (ids : List ℤ) (n : ℕ) (messages : List Message) (a : Outcome (Unit {0}) × List Message)
        (s : Session)
        → publish messages ≡ a
        → (any_of ids o.id ≡ true → Taken o messages)
        → Waits o s.db
        → Kept o (after_publish ids n a s)
    after_publish-Kept ids n messages (ok done, taken) s h k w =
        mark-Kept ids n taken s (mark_outbox_events_published ids s) refl
          (λ m. subst (Taken o) (sym (reliable messages taken h)) (k m)) w
    after_publish-Kept ids n messages (err e, taken) s h k w = tt

    publish_events-Kept :
        (rows : List OutboxRow) (s : Session)
        → OnlyWithItsId o rows
        → Waits o s.db
        → Kept o (publish_events publish (map scan_event rows) s)
    publish_events-Kept [] s only w = inl w
    publish_events-Kept (e ∷ es) s only w =
        let (messages, ids) = disassemble_events (map scan_event (e ∷ es)) in
        after_publish-Kept ids _ messages (publish messages) s refl
          (disassembled-Taken o (e ∷ es) only) w

    after_read-Kept :
        (batch_size : ℤ) (s : Session) (r : Outcome (List OutboxEvent) × Session)
        → pending_events batch_size s ≡ r
        → Waits o s.db
        → Kept o (after_read publish r)
    unfolding unpublished
    after_read-Kept batch_size s (err e, t) h w = tt
    after_read-Kept batch_size s (ok events, t) h w =
        let (same, (n, rows)) = pending-rows batch_size s h in
        subst (λ es. Kept o (publish_events publish es t)) (sym rows)
          (publish_events-Kept (take n (unpublished s.db)) t
            (All-take _ n (unpublished s.db) (
              All-order_by _ older (select is_unpublished s.db.outbox)
                (All-select _ is_unpublished s.db.outbox w.1)))
            (subst (Waits o) (sym same) w))

    finish-Kept :
        (m : Commit) (w : World) (r : Outcome ℤ × Session) (taken : List Message)
        → Waits o w.db
        → Kept o (r, taken)
        → Waits o (finish m w r).1.db ⊎ Taken o taken
    finish-Kept Commit.acknowledged w (ok n, s) taken h k = k
    finish-Kept Commit.refused w (ok n, s) taken h k = inl h
    finish-Kept Commit.applied_unheard w (ok n, s) taken h k = k
    finish-Kept Commit.acknowledged w (err e, s) taken h k = inl h
    finish-Kept Commit.refused w (err e, s) taken h k = inl h
    finish-Kept Commit.applied_unheard w (err e, s) taken h k = inl h

    run_tx-Kept :
        (b : Bool) (batch_size : ℤ) (c : Conditions) (w : World)
        → Waits o w.db
        → Waits o (run_tx b c (λ s. (publish_body publish batch_size s).0) w).1.db
          ⊎ Taken o (if b then (publish_body publish batch_size (open_session c w)).1 else [])
    unfolding publish_body
    run_tx-Kept true batch_size c w h =
        let s = open_session c w in
        let (r, taken) = publish_body publish batch_size s in
        finish-Kept c.commit w r taken h
          (after_read-Kept batch_size s (pending_events batch_size s) refl h)
    run_tx-Kept false batch_size c w h = inl h

    batch-Kept :
        (batch_size : ℤ) (c : Conditions) (w : World)
        → Waits o w.db
        → let ((_, w'), taken) = publish_batch publish batch_size c w in
          Waits o w'.db ⊎ Taken o taken
    unfolding publish_batch with_tx
    batch-Kept batch_size c w h = run_tx-Kept c.begins batch_size c w h

-- Every publisher that the loop meets is reliable.
abbrev pub AllReliable : List (Conditions × Publisher) → Type 0
AllReliable [] = Unit
AllReliable ((c, publish) ∷ rest) = IsReliable publish × AllReliable rest

-- What the broker has taken it keeps.
run-Taken :
    (o : OutboxRow) (batch_size : ℤ) (rounds : List (Conditions × Publisher)) (g : Progress)
    → Taken o g.delivered
    → Taken o (run batch_size rounds g).delivered
unfolding run
run-Taken o batch_size [] g t = t
run-Taken o batch_size ((c, publish) ∷ rest) g t =
    let r = publish_batch publish batch_size c g.world in
    run-Taken o batch_size rest (after_batch batch_size g r) (Memᴰ.append_left r.1 t)

-- Whatever batches the loop publishes, under any faults and commits and with publishers that fail
-- or take a part of a batch: an event of the outbox whose id is its own either still stands in the
-- outbox as it was, or its message is with the broker, provided that a publisher which reports
-- success has had its whole batch taken.
pub run-delivers :
    (o : OutboxRow) (batch_size : ℤ) (rounds : List (Conditions × Publisher)) (g : Progress)
    → AllReliable rounds
    → Waits o g.world.db
    → Waits o (run batch_size rounds g).world.db ⊎ Taken o (run batch_size rounds g).delivered
unfolding run
run-delivers o batch_size [] g reliable h = inl h
run-delivers o batch_size ((c, publish) ∷ rest) g reliable h =
    let r = publish_batch publish batch_size c g.world in
    let next = after_batch batch_size g r in
    elim (batch-Kept o publish reliable.0 batch_size c g.world h) [
      | inl waits ↦ run-delivers o batch_size rest next reliable.1 waits
      | inr taken ↦ inr (run-Taken o batch_size rest next (Memᴰ.append_right g.delivered taken))
    ]
