-- ===== src/Notification/Processor/Lease/Exclusive.antt =====
-- At most one call works on an event within its reservation.
use equilibra.Common.{
  ℕ, ◌+◌, ◌≤◌, ◌<◌, ◌≡◌, sym, subst, ◌∙◌, ◌⊎◌, inl, inr, String, some, List, [], ◌∷◌, ◌==◌,
  Bool-cases, arith,
}
use equilibra.Notification.Redis.{IsRedis}
use equilibra.Notification.Dedup.{lease_ttl}
use equilibra.Notification.Processor.{
  Pc, idle, claiming, probing, waiting, publishing, marking, returned, cancel, advance,
}
use equilibra.Notification.Processor.System.{Setting, System, set_pc, Event, happen, happens}
use equilibra.Notification.Processor.Lease.{reserved, reserved-start, Covered, IsLeased, Leases}
use equilibra.Notification.Processor.Lease.Commands.{advance-Leases}

module _ {S : Type 0} (w : Setting S) where
  open w use {redis, unmarshal, payload_of}

  -- The call of a processor after a step of processor `i`.
  set_pc-cases :
      (i : ℕ) (p : Pc) (pc : ℕ → Pc) (j : ℕ) {x : String × ℕ}
      → reserved (set_pc i p pc j) ≡ some x
      → ((i ≡ j) × (reserved p ≡ some x)) ⊎ (reserved (pc j) ≡ some x)
  set_pc-cases i p pc j e = elim (Bool-cases (i == j)) [
    | inl same ↦ inl (ground arith, rw same at e)
    | inr other ↦ inr (rw other at e)
  ]

  -- A step that reserves nothing and leaves Redis alone.
  set_pc-IsLeased :
      (i : ℕ) (p : Pc) (st : System S)
      → ((x : String × ℕ) → reserved p ≡ some x → reserved (st.pc i) ≡ some x)
      → IsLeased w st
      → IsLeased w (record st { pc = set_pc i p st.pc })
  set_pc-IsLeased i p st less v = record {
    covered = λ j event_id since e. v.covered j event_id since (old j e);
    alone = λ j k event_id a b ej ek. v.alone j k event_id a b (old j ej) (old k ek);
  }
    where
      old :
          (j : ℕ) {x : String × ℕ}
          → reserved (set_pc i p st.pc j) ≡ some x
          → reserved (st.pc j) ≡ some x
      old j {x} e = elim (set_pc-cases i p st.pc j e) [
        | inl new ↦ subst (λ n. reserved (st.pc n) ≡ some x) new.0 (less x new.1)
        | inr kept ↦ kept
      ]

  reserved-cancel : (p : Pc) (x : String × ℕ) → reserved (cancel p) ≡ some x → reserved p ≡ some x
  reserved-cancel (waiting event_id payload) x e = absurd (cc)
  reserved-cancel idle x e = e
  reserved-cancel (claiming event_id payload) x e = e
  reserved-cancel (probing event_id payload) x e = e
  reserved-cancel (publishing event_id y since) x e = e
  reserved-cancel (marking event_id published since) x e = e
  reserved-cancel (returned event_id h) x e = e

  module _ (law : IsRedis redis) (i : ℕ) (st : System S) (v : IsLeased w st) where
    abbrev after : Pc × S
    after = advance redis unmarshal (st.pc i) st.now st.redis

    leases : Leases w st.now st.redis (st.pc i) after.0 after.1
    leases = advance-Leases w law (st.pc i) st.now st.redis

    -- The moved call has the reservation that it had, or one for an event that no one had.
    advances-alone :
        (k : ℕ) (event_id : String) (a b : ℕ)
        → reserved after.0 ≡ some (event_id, a)
        → reserved (st.pc k) ≡ some (event_id, b)
        → st.now < a + lease_ttl
        → st.now < b + lease_ttl
        → i ≡ k
    advances-alone k event_id a b ei ek la lb = elim (leases.fresh event_id a ei) [
      | inl had ↦ v.alone i k event_id a b had ek la lb
      | inr (is, free, _) ↦ absurd ((v.covered k event_id b ek).1 st.now (omega arith) lb free)
    ]

    advances-Covered :
        (event_id : String) (since : ℕ)
        → reserved after.0 ≡ some (event_id, since)
        → (since ≤ st.now) × Covered w event_id since st.now after.1
    advances-Covered event_id since e = elim (leases.fresh event_id since e) [
      | inl had ↦
          let (le, k) = v.covered i event_id since had in (le, leases.keeps event_id since le k)
      | inr (is, _, k) ↦
          (omega (arith, is), subst (λ n. Covered w event_id n st.now after.1) (sym is) k)
    ]

    advances-IsLeased : IsLeased w (record st { redis = after.1; pc = set_pc i after.0 st.pc })
    advances-IsLeased = record {
      covered = λ j event_id since e. elim (set_pc-cases i after.0 st.pc j e) [
        | inl (_, new) ↦ advances-Covered event_id since new
        | inr kept ↦
            let (le, k) = v.covered j event_id since kept in (le, leases.keeps event_id since le k)
      ];
      alone = λ j k event_id a b ej ek la lb. elim (set_pc-cases i after.0 st.pc j ej) [
        | inl (ij, nj) ↦ elim (set_pc-cases i after.0 st.pc k ek) [
          | inl (ik, _) ↦ sym ij ∙ ik
          | inr ok ↦ sym ij ∙ advances-alone k event_id a b nj ok la lb
        ]
        | inr oj ↦ elim (set_pc-cases i after.0 st.pc k ek) [
          | inl (ik, nk) ↦ sym (advances-alone j event_id b a nk oj lb la) ∙ ik
          | inr ok ↦ v.alone j k event_id a b oj ok la lb
        ]
      ];
    }

  happen-IsLeased :
      IsRedis redis → (x : Event) (st : System S) → IsLeased w st → IsLeased w (happen w x st)
  unfolding happen
  happen-IsLeased law (Event.begins i event_id) st v =
      set_pc-IsLeased i _ st
        (λ x e. absurd (cc (sym (reserved-start event_id (payload_of event_id)) ∙ e))) v
  happen-IsLeased law (Event.advances i) st v = advances-IsLeased law i st v
  happen-IsLeased law (Event.cancels i) st v = set_pc-IsLeased i _ st (reserved-cancel (st.pc i)) v
  happen-IsLeased law (Event.dies i) st v = set_pc-IsLeased i idle st (λ x e. absurd (cc)) v
  happen-IsLeased law (Event.passes d) st v = record {
    covered = λ i event_id since e.
        let (le, k) = v.covered i event_id since e in
        (omega (arith, le), λ u later before. k u (omega (arith, later)) before);
    alone = λ i j event_id a b ei ej la lb.
        v.alone i j event_id a b ei ej (omega (arith, la)) (omega (arith, lb));
  }

  happens-IsLeased :
      IsRedis redis
      → (xs : List Event) (st : System S) → IsLeased w st
      → IsLeased w (happens w xs st)
  unfolding happens
  happens-IsLeased law [] st v = v
  happens-IsLeased law (x ∷ xs) st v =
      happens-IsLeased law xs (happen w x st) (happen-IsLeased law x st v)

  -- Over a Redis that keeps its laws, whatever processors do, die and wait in whatever order,
  -- starting with no call under way: two
  -- calls that have reserved the same event, both less than 30 seconds ago, are the same call.
  pub happens-alone :
      IsRedis redis
      → (xs : List Event) (st : System S) → ((j : ℕ) → st.pc j ≡ idle)
      → (i j : ℕ) (event_id : String) (a b : ℕ)
      → reserved ((happens w xs st).pc i) ≡ some (event_id, a)
      → reserved ((happens w xs st).pc j) ≡ some (event_id, b)
      → (happens w xs st).now < a + lease_ttl
      → (happens w xs st).now < b + lease_ttl
      → i ≡ j
  happens-alone law xs st quiet i j =
      (happens-IsLeased law xs st (record {
        covered = λ k event_id since e. absurd (cc (quiet k));
        alone = λ k l event_id a b ek. absurd (cc (quiet k));
      })).alone
        i j
