-- ===== src/Relay/Draining.antt =====
-- The loop empties the outbox.
use equilibra.Common.{
  ap, ℕ, zero, suc, ◌+◌, ◌-◌, ◌*◌, ◌≤◌, ◌≡◌, sym, subst, true, List, [], ◌∷◌, take, length, map,
  arith,
}
use equilibra.Common.Int.{ℤ, pos}
use equilibra.Errors.{Outcome, ok}
use equilibra.Storage.Session.{OutboxRow}
use equilibra.Storage.Querier.Outbox.{unpublished, scan_event}
use equilibra.Storage.WithTx.{World, Conditions}
use equilibra.Service.Idempotency.{IsCalm}
use equilibra.Relay.{
  Message, Publisher, Progress, publish_batch, disassemble_events, after_batch, run,
}
use equilibra.Relay.Backlog.{DistinctIds, DistinctIds-marked, backlog, batch_of}
use equilibra.Relay.Order.{backlog-published, map-mark_row}
use equilibra.Relay.Batches.{publish_batch_calm}

-- Nothing fails, the lock is free, and the broker takes what it is sent.
pub record IsServing (round : Conditions × Publisher) : Type 0 where
  pub calm : IsCalm round.0
  pub free : round.0.outbox_free ≡ true
  pub takes : (messages : List Message) → round.1 messages ≡ (ok tt, messages)

abbrev pub AllServing : List (Conditions × Publisher) → Type 0
AllServing [] = Unit
AllServing (round ∷ rounds) = IsServing round × AllServing rounds

length-take :
    (n : ℕ) (rows : List OutboxRow) → length (take n rows) + (length rows - n) ≡ length rows
length-take zero rows = omega arith
length-take (suc n) [] = omega arith
length-take (suc n) (o ∷ rows) = omega (arith, length-take n rows)

batch-left :
    (n : ℕ) (round : Conditions × Publisher) (w : World)
    → IsServing round
    → DistinctIds w.db.outbox
    → let w' = (publish_batch round.1 (pos n) round.0 w).0.1 in
      (backlog w'.db ≡ backlog w.db - n) × DistinctIds w'.db.outbox
batch-left n (c, publish) w serving distinct =
    let batch = batch_of n w.db in
    subst
      (λ (r : (Outcome ℤ × World) × List Message).
        (backlog r.0.1.db ≡ backlog w.db - n) × DistinctIds r.0.1.db.outbox)
      (sym (publish_batch_calm publish serving.takes n c w serving.calm serving.free))
      (
        omega (
          arith,
          ap (λ rows. backlog (record w.db { outbox = rows }))
              (map-mark_row batch c.now w.db.outbox),
          backlog-published n c.now w.db distinct,
          length-take n (unpublished w.db),
        ),
        DistinctIds-marked (disassemble_events (map scan_event batch)).1 c.now w.db.outbox distinct,
      )

-- While nothing fails, the relay's lock is free and the broker takes what it is sent, and where no
-- two rows of the outbox have the same id: once the loop has run for as many rounds as the backlog
-- has batches, full or begun, no event is unpublished.
pub run-drains :
    (n : ℕ) (rounds : List (Conditions × Publisher)) (g : Progress)
    → AllServing rounds
    → DistinctIds g.world.db.outbox
    → backlog g.world.db ≤ length rounds * n
    → backlog (run (pos n) rounds g).world.db ≡ 0
unfolding run
run-drains n [] g serving distinct le = omega (arith, le)
run-drains n ((c, publish) ∷ rounds) g serving distinct le =
    let (left, still) = batch-left n (c, publish) g.world serving.0 distinct in
    run-drains n rounds (after_batch (pos n) g (publish_batch publish (pos n) c g.world)) serving.1
      still (omega (arith, le, left))
