-- ===== src/Notification/Processor.antt =====
-- `Processor.Handle` of internal/notification/processor.go with `RedisDeduper` and
-- `RedisPublisher`: where a call of it stands, one command to Redis at a time, and what the next
-- step does. `json.Unmarshal` into `EntryPosted` is the parameter `unmarshal`.
pub mod System
pub mod Told
pub mod Lease
pub mod Alone
pub mod Subject
use equilibra.Common.{ℕ, String, Bool, true, false, Option, none, some, str_eq, if◌then◌else◌}
use equilibra.Events.{EntryPosted}
use equilibra.Events.Document.{Json}
use equilibra.Notification.Message.{notification, envelope, notifications_channel}
use equilibra.Notification.Redis.{Redis, Answer, answered, failed}
use equilibra.Notification.Dedup.{
  ClaimResult, acquired, done, busy, unknown, claim_of_value, dedup_key, state_processing,
  lease_ttl, mark_done,
}

-- Why `Handle` returns an error.
pub data Failure : Type 0 where
  redis_failed cancelled unexpected_claim : Failure

-- What `Handle` returns: a nil error, or an error.
pub data Handled : Type 0 where
  finished : Handled
  retry : Failure → Handled

-- Where a call stands, with the variables that are live there and the time of its reservation.
pub data Pc : Type 0 where
  idle : Pc
  claiming : String → Json → Pc  -- before `SetNX`
  probing : String → Json → Pc  -- before `Get`
  waiting : String → Json → Pc  -- in the `select` of `ClaimBusy`
  publishing : String → EntryPosted → ℕ → Pc  -- before `Publish`
  marking : String → Bool → ℕ → Pc  -- before `Done`; whether the notification was published
  returned : String → Handled → Pc

-- The first lines of `Handle`.
unfoldable pub handle_start : String → Json → Pc
handle_start event_id payload =
    if str_eq event_id "" then returned event_id finished else claiming event_id payload

-- The switch on the claim's result.
abbrev pub after_probe : String → Json → Answer ClaimResult → Pc
after_probe event_id payload (answered done) = returned event_id finished
after_probe event_id payload (answered busy) = waiting event_id payload
after_probe event_id payload (answered r) = returned event_id (retry unexpected_claim)
after_probe event_id payload failed = returned event_id (retry redis_failed)

-- From the acquired reservation to the next command.
abbrev pub claimed : String → ℕ → Option EntryPosted → Pc
claimed event_id since none = marking event_id false since
claimed event_id since (some e) = publishing event_id e since

abbrev pub after_publish : String → ℕ → Answer (Unit {0}) → Pc
after_publish event_id since (answered ok) = marking event_id true since
after_publish event_id since failed = returned event_id (retry redis_failed)

-- A failed `Done` is an error only for a malformed payload.
abbrev pub after_done : String → Bool → Answer (Unit {0}) → Pc
after_done event_id published (answered ok) = returned event_id finished
after_done event_id true failed = returned event_id finished
after_done event_id false failed = returned event_id (retry redis_failed)

-- `ctx.Done()` in the wait.
abbrev pub cancel : Pc → Pc
cancel (waiting event_id payload) = returned event_id (retry cancelled)
cancel p = p

module _ {S : Type 0} (redis : Redis S) (unmarshal : Json → Option EntryPosted) where
  abbrev after_claim : String → Json → ℕ → Answer Bool → Pc
  after_claim event_id payload now (answered true) = claimed event_id now (unmarshal payload)
  after_claim event_id payload now (answered false) = probing event_id payload
  after_claim event_id payload now failed = returned event_id (retry redis_failed)

  unfoldable pub advance : Pc → ℕ → S → Pc × S
  unfolding mark_done
  advance (claiming event_id payload) now s =
      let (a, s') = redis.set_nx (dedup_key event_id) state_processing lease_ttl now s in
      (after_claim event_id payload now a, s')
  advance (probing event_id payload) now s =
      let (a, s') = redis.get (dedup_key event_id) now s in
      (after_probe event_id payload (claim_of_value a), s')
  advance (waiting event_id payload) now s = (claiming event_id payload, s)
  advance (publishing event_id e since) now s =
      let (a, s') =
        redis.publish notifications_channel (envelope e.account_id (notification event_id e)) s in
      (after_publish event_id since a, s')
  advance (marking event_id published since) now s =
      let (a, s') = mark_done redis event_id now s in (after_done event_id published a, s')
  advance p now s = (p, s)
