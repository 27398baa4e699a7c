-- ===== src/Notification/Processor/Lease.antt =====
-- While a reservation lasts, no other processor works on its event: the invariant, and what a write
-- to Redis does to it.
pub mod Commands
pub mod Exclusive
use equilibra.Common.{
  ℕ, ◌+◌, ◌≤◌, ◌<◌, ◌≡◌, ◌≢◌, refl, sym, subst, ap, ◌∙◌, ◌⊎◌, inl, inr, String, Bool, true, false,
  Option, none, some, List, [], ◌∷◌, ltb, ◌==◌, str_eq, eq_iff, Bool-cases, arith, if◌then◌else◌,
}
use equilibra.Events.{EntryPosted}
use equilibra.Events.Document.{Json}
use equilibra.Notification.Message.{notification, envelope, notifications_channel}
use equilibra.Notification.Redis.{
  Redis, IsRedis, Answer, answered, failed, SameValues, Stored, SetNxAnswers, GetAnswers,
  SetAnswers, PublishAnswers,
}
use equilibra.Notification.Dedup.{
  dedup_key, state_done, state_processing, lease_ttl, done_ttl, mark_done, claim_of_value,
  ClaimResult, acquired, done, busy, unknown,
}
use equilibra.Notification.Processor.{
  Pc, idle, claiming, probing, waiting, publishing, marking, returned, Handled, finished, retry,
  Failure, handle_start, after_probe, claimed, after_publish, after_done, after_claim, cancel,
  advance,
}
use equilibra.Notification.Processor.System.{Setting, System, set_pc, Event, happen, happens}

-- The event that a call has reserved, and since when.
abbrev pub reserved : Pc → Option (String × ℕ)
reserved (publishing event_id e since) = some (event_id, since)
reserved (marking event_id published since) = some (event_id, since)
reserved p = none

pub reserved-start :
    (event_id : String) (payload : Json) → reserved (handle_start event_id payload) ≡ none
unfolding handle_start
reserved-start event_id payload = ground arith

module _ {S : Type 0} (w : Setting S) where
  open w use {redis, unmarshal, payload_of}

  -- The key has a value until the reservation made at `since` ends.
  abbrev pub Covered : String → ℕ → ℕ → S → Type 0
  Covered event_id since now s =
      (u : ℕ) → now ≤ u → u < since + lease_ttl → redis.value (dedup_key event_id) u s ≢ none

  pub record IsLeased (st : System S) : Type 0 where
    pub covered :
        (i : ℕ) (event_id : String) (since : ℕ)
        → reserved (st.pc i) ≡ some (event_id, since)
        → (since ≤ st.now) × Covered event_id since st.now st.redis
    pub alone :
        (i j : ℕ) (event_id : String) (a b : ℕ)
        → reserved (st.pc i) ≡ some (event_id, a)
        → reserved (st.pc j) ≡ some (event_id, b)
        → st.now < a + lease_ttl
        → st.now < b + lease_ttl
        → i ≡ j

  -- What one command does for reservations.
  pub record Leases (now : ℕ) (s : S) (p p' : Pc) (s' : S) : Type 0 where
    pub keeps :
        (event_id : String) (since : ℕ)
        → since ≤ now
        → Covered event_id since now s
        → Covered event_id since now s'
    pub fresh :
        (event_id : String) (since : ℕ)
        → reserved p' ≡ some (event_id, since)
        → (reserved p ≡ some (event_id, since))
          ⊎ ((since ≡ now)
              × (redis.value (dedup_key event_id) now s ≡ none)
              × Covered event_id now now s')

  pub SameValues-Covered :
      (event_id : String) (since now : ℕ) (s s' : S)
      → SameValues redis s s'
      → Covered event_id since now s
      → Covered event_id since now s'
  SameValues-Covered event_id since now s s' same k u le lt e = k u le lt (sym (same _ u) ∙ e)

  -- A key that is written for long enough is covered, and one that is not written stays covered.
  pub Stored-Covered :
      (key v : String) (ttl : ℕ) (event_id : String) (since now : ℕ) (s s' : S)
      → Stored redis key v ttl now s s'
      → lease_ttl ≤ ttl
      → since ≤ now
      → (str_eq key (dedup_key event_id) ≡ true) ⊎ Covered event_id since now s
      → Covered event_id since now s'
  Stored-Covered key v ttl event_id since now s s' stored long le known u later before e =
      elim (Bool-cases (str_eq key (dedup_key event_id))) [
        | inl is ↦
            let inside : ltb u (now + ttl) ≡ true = ground arith in
            cc (rw (is, inside) at (sym (stored (dedup_key event_id) u later) ∙ e))
        | inr other ↦ elim known [
          | inl is ↦ cc
          | inr k ↦ k u later before (rw other at (sym (stored (dedup_key event_id) u later) ∙ e))
        ]
      ]

  pub Covered-Stored :
      (key v : String) (ttl : ℕ) (now : ℕ) (s s' : S)
      → Stored redis key v ttl now s s'
      → lease_ttl ≤ ttl
      → (event_id : String) (since : ℕ) → since ≤ now
      → Covered event_id since now s
      → Covered event_id since now s'
  Covered-Stored key v ttl now s s' stored long event_id since le k =
      Stored-Covered key v ttl event_id since now s s' stored long le (inr k)
