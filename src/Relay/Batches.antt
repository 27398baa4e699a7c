-- ===== src/Relay/Batches.antt =====
-- What a batch does while nothing fails: the oldest events go out in order and are marked, so the
-- backlog shrinks by the size of the batch.
use equilibra.Common.{
  ℕ, suc, ◌≡◌, refl, sym, subst, ap, ◌∙◌, true, List, [], ◌∷◌, map, length, exists, select,
}
use mathlib.Core.List.{Permᴰ}
use equilibra.Common.Int.{ℤ, pos}
use equilibra.Errors.{Outcome, ok}
use equilibra.Storage.Session.{OutboxRow, Session, statement}
use equilibra.Storage.Querier.Outbox.{
  unpublished, scan_event, try_lock_outbox, get_unpublished_outbox_events, any_of, mark_row,
  mark_outbox_events_published,
}
use equilibra.Storage.WithTx.{World, Conditions, with_tx, open_session, committed}
use equilibra.Service.Idempotency.{IsCalm}
use equilibra.Relay.{
  Message, Publisher, disassemble_events, pending_events, publish_events, after_read, publish_body,
  publish_batch,
}
use equilibra.Relay.Backlog.{DistinctIds, batch_of}
use equilibra.Relay.Order.{
  is_waiting, IsFirst, batch-IsFirst, drop, published_with, map-mark_row, rest-waiting,
}

pending_calm :
    (n : ℕ) (s : Session)
    → s.faults ≡ []
    → s.outbox_free ≡ true
    → pending_events (pos n) s ≡ (ok (map scan_event (batch_of n s.db)), s)
unfolding pending_events try_lock_outbox get_unpublished_outbox_events statement
pending_calm n s calm free = simp (calm, free)

-- The batch is marked.
abbrev pub marked : List OutboxRow → Session → Session
marked batch s = record s {
  db = record s.db {
    outbox = map (mark_row (disassemble_events (map scan_event batch)).1 s.now) s.db.outbox;
  };
}

marked-nothing : (now : ℕ) (rows : List OutboxRow) → map (mark_row [] now) rows ≡ rows
unfolding any_of exists
marked-nothing now [] = refl
marked-nothing now (o ∷ rows) = ap (λ (l : List OutboxRow). o ∷ l) (marked-nothing now rows)

length-messages :
    (batch : List OutboxRow) → length (disassemble_events (map scan_event batch)).0 ≡ length batch
unfolding disassemble_events
length-messages [] = refl
length-messages (o ∷ batch) = ap suc (length-messages batch)

module _ (publish : Publisher)
    (takes : (messages : List Message) → publish messages ≡ (ok tt, messages)) where
  publish_events_calm :
      (batch : List OutboxRow) (s : Session)
      → s.faults ≡ []
      → publish_events publish (map scan_event batch) s
        ≡ ((ok (pos (length batch)), marked batch s), (disassemble_events (map scan_event batch)).0)
  unfolding mark_outbox_events_published disassemble_events statement
  publish_events_calm [] s calm =
      ap
        (λ (rows : List OutboxRow).
          ((ok (pos 0), record s { db = record s.db { outbox = rows } }), []))
        (sym (marked-nothing s.now s.db.outbox))
  publish_events_calm (o ∷ batch) s calm = simp (takes, calm, length-messages batch)

  publish_body_calm :
      (n : ℕ) (s : Session)
      → s.faults ≡ []
      → s.outbox_free ≡ true
      → let batch = batch_of n s.db in
        publish_body publish (pos n) s
        ≡ ((ok (pos (length batch)), marked batch s), (disassemble_events (map scan_event batch)).0)
  unfolding publish_body
  publish_body_calm n s calm free =
      ap (after_read publish) (pending_calm n s calm free)
      ∙ publish_events_calm (batch_of n s.db) s calm

  pub publish_batch_calm :
      (n : ℕ) (c : Conditions) (w : World)
      → IsCalm c
      → c.outbox_free ≡ true
      → let batch = batch_of n w.db in
        publish_batch publish (pos n) c w ≡ (
          (ok (pos (length batch)), committed (marked batch (open_session c w))),
          (disassemble_events (map scan_event batch)).0,
        )
  unfolding publish_batch with_tx
  publish_batch_calm n c w calm free =
      let body = publish_body_calm n (open_session c w) calm.faults free in
      simp (calm.begins, calm.commit, body)

-- The message that carries a row.
abbrev pub carries : OutboxRow → Message
carries o = record {
  key = o.partition_key;
  value = o.payload;
  headers = ("event_id", o.event_id) ∷ ("event_type", o.event_type) ∷ [];
}

messages-carries :
    (batch : List OutboxRow) → (disassemble_events (map scan_event batch)).0 ≡ map carries batch
unfolding disassemble_events
messages-carries [] = refl
messages-carries (o ∷ batch) = ap (λ (l : List Message). carries o ∷ l) (messages-carries batch)

-- What a batch of at most `n` events has done.
pub record Published (n now : ℕ) (w : World) (r : (Outcome ℤ × World) × List Message) : Type 0 where
  pub batch : List OutboxRow
  pub rest : List OutboxRow
  pub first : IsFirst n w.db.outbox batch rest
  pub answer : r.0.0 ≡ ok (pos (length batch))
  pub sent : r.1 ≡ map carries batch
  pub tables : r.0.1.db ≡ record w.db { outbox = map (published_with batch now) w.db.outbox }
  pub waits : Permᴰ (select is_waiting r.0.1.db.outbox) rest

-- While nothing fails, the relay's lock is free and the broker takes what it is sent, and where no
-- two rows of the outbox have the same id: the rows without a time of publication are those of a
-- batch and a rest, in ascending order of their ids, and the batch has at most `n` of them, exactly
-- `n` if there is a rest; the broker takes one message for each row of the batch, in this order, with
-- the row's key, payload, id and type; the answer is their number; no table changes but the
-- outbox, where the rows of the batch get the time as their time of publication; and the rows without
-- one are then those of the rest.
pub publish_batch-Published :
    (publish : Publisher)
    → ((messages : List Message) → publish messages ≡ (ok tt, messages))
    → (n : ℕ) (c : Conditions) (w : World) → IsCalm c
    → c.outbox_free ≡ true
    → DistinctIds w.db.outbox
    → Published n c.now w (publish_batch publish (pos n) c w)
publish_batch-Published publish takes n c w calm free distinct =
    let batch = batch_of n w.db in
    let marks = map-mark_row batch c.now w.db.outbox in
    subst (Published n c.now w) (sym (publish_batch_calm publish takes n c w calm free)) (record {
      batch = batch;
      rest = drop n (unpublished w.db);
      first = batch-IsFirst n w.db;
      answer = refl;
      sent = messages-carries batch;
      tables = ap (λ rows. record w.db { outbox = rows }) marks;
      waits =
          subst (λ rows. Permᴰ (select is_waiting rows) (drop n (unpublished w.db))) (sym marks)
            (rest-waiting n c.now w.db distinct);
    })
