-- ===== src/Relay.antt =====
-- internal/relay/relay.go: batches of outbox events on their way to the publisher. The publisher is
-- a parameter: its answer to a batch, and the messages that the broker has taken of it, in order.
pub mod Rows
pub mod Delivery
pub mod Backlog
pub mod Order
pub mod Oldest
pub mod Batches
pub mod Draining
pub mod Gauge
pub mod Tests
use equilibra.Common.{
  ℕ, suc, String, Bool, true, false, not, List, [], ◌∷◌, ◌++◌, length, if◌then◌else◌,
}
use equilibra.Common.Int.{ℤ, pos, ◌==ℤ◌}
use equilibra.Errors.{Outcome, ok, err, outbox_locked}
use equilibra.Events.Document.{Json}
use equilibra.Storage.Session.{Session, Exec, pure, raise_if, continue, ◌>>=◌, ◌>>◌}
use equilibra.Storage.Querier.Outbox.{
  OutboxEvent, try_lock_outbox, get_unpublished_outbox_events, mark_outbox_events_published,
}
use equilibra.Storage.WithTx.{World, Conditions, with_tx, open_session}

pub record Message : Type 0 where
  pub key : List ℕ
  pub value : Json
  pub headers : List (String × String)

abbrev pub Publisher : Type 0
Publisher = List Message → Outcome (Unit {0}) × List Message

abbrev pub message : OutboxEvent → Message
message e = record {
  key = e.partition_key;
  value = e.payload;
  headers = ("event_id", e.event_id) ∷ ("event_type", e.event_type) ∷ [];
}

unfoldable pub disassemble_events : List OutboxEvent → List Message × List ℤ
disassemble_events [] = ([], [])
disassemble_events (e ∷ es) =
    let (messages, ids) = disassemble_events es in (message e ∷ messages, e.id ∷ ids)

-- The closure up to the events.
unfoldable pub pending_events : ℤ → Exec (List OutboxEvent)
pending_events batch_size = do
  is_open ← try_lock_outbox
  raise_if (not is_open) outbox_locked
  get_unpublished_outbox_events batch_size

-- From the publisher's answer on. The messages that were taken stay with the broker whatever
-- becomes of the database transaction.
abbrev pub after_publish :
    List ℤ → ℕ → Outcome (Unit {0}) × List Message → Session → (Outcome ℤ × Session) × List Message
after_publish ids n (ok done, taken) s =
    (continue (λ _. pure (pos n)) (mark_outbox_events_published ids s), taken)
after_publish ids n (err e, taken) s = ((err e, s), taken)

abbrev pub publish_events :
    Publisher → List OutboxEvent → Session → (Outcome ℤ × Session) × List Message
publish_events publish [] s = ((ok (pos 0), s), [])
publish_events publish (e ∷ es) s =
    let (messages, ids) = disassemble_events (e ∷ es) in
    after_publish ids (length messages) (publish messages) s

abbrev pub after_read :
    Publisher → Outcome (List OutboxEvent) × Session → (Outcome ℤ × Session) × List Message
after_read publish (ok events, s) = publish_events publish events s
after_read publish (err e, s) = ((err e, s), [])

unfoldable pub publish_body : Publisher → ℤ → Session → (Outcome ℤ × Session) × List Message
publish_body publish batch_size s = after_read publish (pending_events batch_size s)

-- `ErrOutboxLocked` is not an error of the batch.
abbrev pub none_if_locked : Outcome ℤ → Outcome ℤ
none_if_locked (err outbox_locked) = ok (pos 0)
none_if_locked o = o

abbrev pub locked_is_none : Outcome ℤ × World → Outcome ℤ × World
locked_is_none (o, w) = (none_if_locked o, w)

-- The database transaction, and what the broker has taken by its end.
unfoldable pub publish_batch :
    Publisher → ℤ → Conditions → World → (Outcome ℤ × World) × List Message
publish_batch publish batch_size c w = (
  locked_is_none (with_tx c (λ s. (publish_body publish batch_size s).0) w),
  if c.begins then (publish_body publish batch_size (open_session c w)).1 else [],
)

-- What the loop of `Run` has behind it: the world, all that the broker has taken, and how often it
-- waited for the interval.
pub record Progress : Type 0 where
  pub world : World
  pub delivered : List Message
  pub waits : ℕ

-- The loop goes on at once after a full batch.
abbrev pub is_full : ℤ → Outcome ℤ → Bool
is_full batch_size (ok n) = n ==ℤ batch_size
is_full batch_size (err e) = false

abbrev pub after_batch : ℤ → Progress → (Outcome ℤ × World) × List Message → Progress
after_batch batch_size g ((o, w), taken) = record {
  world = w;
  delivered = g.delivered ++ taken;
  waits = if is_full batch_size o then g.waits else suc g.waits;
}

-- The loop until its context ends: one batch for each of the conditions and publishers it meets.
unfoldable pub run : ℤ → List (Conditions × Publisher) → Progress → Progress
run batch_size [] g = g
run batch_size ((c, publish) ∷ rest) g =
    run batch_size rest (after_batch batch_size g (publish_batch publish batch_size c g.world))
