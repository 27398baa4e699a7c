-- ===== src/Notification/Dedup.antt =====
-- internal/notification/dedup.go: the reservation of an event under its key in Redis.
pub mod Claims
use equilibra.Common.{ℕ, ◌*◌, String, Bool, true, false, Option, none, some, str_eq, if◌then◌else◌}
use equilibra.Notification.Redis.{Redis, Answer, answered, failed}
use Prim.Native.String.{◌++◌ as ◌+++◌}

pub data ClaimResult : Type 0 where
  unknown acquired done busy : ClaimResult

abbrev pub key_prefix : String
key_prefix = "notified:"

-- In seconds: 30 seconds, and 24 hours.
abbrev pub lease_ttl : ℕ
lease_ttl = 30

abbrev pub done_ttl : ℕ
done_ttl = 86400

abbrev pub state_processing : String
state_processing = "processing"

abbrev pub state_done : String
state_done = "done"

unfoldable pub dedup_key : String → String
dedup_key event_id = ◌+++◌ key_prefix event_id

-- What `Claim` makes of the answer to its `Get`; `redis.Nil` is `none`.
abbrev pub claim_of_value : Answer (Option String) → Answer ClaimResult
claim_of_value (answered none) = answered busy
claim_of_value (answered (some val)) = answered (if str_eq val state_done then done else busy)
claim_of_value failed = failed

module _ {S : Type 0} (redis : Redis S) where
  -- `u` is the time of the `Get`, and `meanwhile` what happens until then.
  abbrev pub after_set_nx : String → ℕ → (S → S) → Answer Bool × S → Answer ClaimResult × S
  after_set_nx event_id u meanwhile (answered true, s) = (answered acquired, s)
  after_set_nx event_id u meanwhile (answered false, s) =
      let (a, s') = redis.get (dedup_key event_id) u (meanwhile s) in (claim_of_value a, s')
  after_set_nx event_id u meanwhile (failed, s) = (failed, s)

  -- The `SetNX` at time `t` and, if there is one, the `Get` at time `u`.
  unfoldable pub claim : String → ℕ → ℕ → (S → S) → S → Answer ClaimResult × S
  claim event_id t u meanwhile s =
      after_set_nx event_id u meanwhile
        (redis.set_nx (dedup_key event_id) state_processing lease_ttl t s)

  unfoldable pub mark_done : String → ℕ → S → Answer (Unit {0}) × S
  mark_done event_id now s = redis.set (dedup_key event_id) state_done done_ttl now s
