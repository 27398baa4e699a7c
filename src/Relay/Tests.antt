-- ===== src/Relay/Tests.antt =====
-- Two batches of one event each on the outbox of a deposit.
use equilibra.Common.{
  ◌≡◌, refl, ap, ◌⊎◌, ℕ, String, none, List, [], ◌∷◌, arith, select, order_by, insert_by, exists,
}
use mathlib.Core.List.{Memᴰ}
use equilibra.Common.Int.{pos, pos_part, ◌==ℤ◌}
use equilibra.Errors.{ok, err, driver}
use equilibra.Events.Document.{Json}
use equilibra.Storage.Session.{OutboxRow, statement}
use equilibra.Storage.Querier.Outbox.{
  unpublished, try_lock_outbox, get_unpublished_outbox_events, any_of, mark_outbox_events_published,
}
use equilibra.Storage.WithTx.{World, Conditions, with_tx}
use equilibra.Service.Tests.{calm, ledger}
use equilibra.Relay.{
  Publisher, Progress, run, publish_batch, publish_body, pending_events, disassemble_events,
}
use equilibra.Service.Idempotency.{IsCalm}
use equilibra.Relay.{Message}
use equilibra.Relay.Backlog.{DistinctIds, backlog}
use equilibra.Relay.Batches.{Published, publish_batch-Published}
use equilibra.Relay.Gauge.{Scraped, outbox_age, outbox_age-Scraped}
use equilibra.Relay.Draining.{IsServing, run-drains}
use equilibra.Relay.Rows.{Waits, Taken}
use equilibra.Relay.Delivery.{IsReliable, run-delivers}

-- A publisher whose broker takes every batch, and one whose broker takes nothing.
abbrev online : Publisher
online messages = (ok tt, messages)

abbrev offline : Publisher
offline messages = (err driver, [])

online-IsReliable : IsReliable online
online-IsReliable messages taken h = cc

offline-IsReliable : IsReliable offline
offline-IsReliable messages taken h = absurd (cc)

abbrev rounds : List (Conditions × Publisher)
rounds = (calm, offline) ∷ (calm, online) ∷ (calm, online) ∷ []

abbrev event : ℕ → String → OutboxRow
event id uuid = record {
  id = pos id;
  event_id = uuid;
  event_type = "entry.posted";
  partition_key = b'1' ∷ [];
  payload = Json.num (pos 30);
  created_at = 0;
  published_at = none;
}

abbrev posted : World
posted = record ledger { db = record ledger.db { outbox = event 1 "u1" ∷ event 2 "u2" ∷ [] } }

abbrev start : Progress
start = record { world = posted; delivered = []; waits = 0 }

event-Waits : Waits (event 1 "u1") posted.db
event-Waits = (Memᴰ.head refl, (λ e. refl, (λ e. absurd (omega (arith, ap pos_part e)), tt)))

run-delivers_example :
    Waits (event 1 "u1") (run (pos 1) rounds start).world.db
    ⊎ Taken (event 1 "u1") (run (pos 1) rounds start).delivered
run-delivers_example =
    run-delivers (event 1 "u1") (pos 1) rounds start
      (offline-IsReliable, (online-IsReliable, (online-IsReliable, tt))) event-Waits

-- The failed batch and the two full ones: one wait.
run_waits : (run (pos 1) rounds start).waits ≡ 1
unfolding run with_tx statement select exists ◌==ℤ◌ publish_batch publish_body pending_events
    disassemble_events try_lock_outbox get_unpublished_outbox_events mark_outbox_events_published
    unpublished any_of order_by insert_by
run_waits = refl

online-takes : (messages : List Message) → online messages ≡ (ok tt, messages)
online-takes messages = refl

calm-IsCalm : IsCalm calm
calm-IsCalm = record { begins = refl; faults = refl; commit = refl }

posted-DistinctIds : DistinctIds posted.db.outbox
unfolding exists ◌==ℤ◌
posted-DistinctIds = (refl, (refl, tt))

publish_batch-Published_example : Published 1 7 posted (publish_batch online (pos 1) calm posted)
publish_batch-Published_example =
    publish_batch-Published online online-takes 1 calm posted calm-IsCalm refl posted-DistinctIds

abbrev online_rounds : List (Conditions × Publisher)
online_rounds = (calm, online) ∷ (calm, online) ∷ []

online-IsServing : IsServing (calm, online)
online-IsServing = record { calm = calm-IsCalm; free = refl; takes = online-takes }

run-drains_example : backlog (run (pos 1) online_rounds start).world.db ≡ 0
unfolding unpublished select order_by insert_by
run-drains_example =
    run-drains 1 online_rounds start (online-IsServing, (online-IsServing, tt)) posted-DistinctIds
      (omega arith)

outbox_age-Scraped_example : Scraped calm posted (outbox_age calm posted)
outbox_age-Scraped_example = outbox_age-Scraped calm posted
