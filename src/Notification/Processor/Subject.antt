-- ===== src/Notification/Processor/Subject.antt =====
-- A call stays with its event, whatever others do.
use equilibra.Common.{
  ℕ, ◌≡◌, refl, String, Bool, true, false, Option, none, some, List, [], ◌∷◌, All, str_eq, ◌==◌,
  Bool-cases, inl, inr, arith, subst, sym, if◌then◌else◌,
}
use equilibra.Events.{EntryPosted}
use equilibra.Events.Document.{Json}
use equilibra.Notification.Redis.{Answer, answered, failed}
use equilibra.Notification.Dedup.{
  dedup_key, state_processing, lease_ttl, claim_of_value, ClaimResult, done, busy, acquired,
  unknown, mark_done,
}
use equilibra.Notification.Processor.{
  Pc, idle, claiming, probing, waiting, publishing, marking, returned, handle_start, after_probe,
  claimed, after_publish, after_done, after_claim, cancel, advance,
}
use equilibra.Notification.Processor.System.{
  Setting, System, set_pc, Event, begins, advances, cancels, dies, passes, happen, happens,
}

-- The events of others: the processor gets no other record and does not die.
abbrev pub Spares : ℕ → Event → Type 0
Spares i (begins j event_id) = (j == i) ≡ false
Spares i (dies j) = (j == i) ≡ false
Spares i x = Unit

-- The call is about the event.
abbrev pub IsFor : String → Pc → Type 0
IsFor j idle = ⊥
IsFor j (claiming event_id payload) = event_id ≡ j
IsFor j (probing event_id payload) = event_id ≡ j
IsFor j (waiting event_id payload) = event_id ≡ j
IsFor j (publishing event_id e since) = event_id ≡ j
IsFor j (marking event_id published since) = event_id ≡ j
IsFor j (returned event_id h) = event_id ≡ j

claimed-IsFor :
    (j event_id : String) (since : ℕ) (o : Option EntryPosted)
    → event_id ≡ j
    → IsFor j (claimed event_id since o)
claimed-IsFor j event_id since none h = h
claimed-IsFor j event_id since (some e) h = h

after_probe-IsFor :
    (j event_id : String) (payload : Json) (a : Answer ClaimResult)
    → event_id ≡ j
    → IsFor j (after_probe event_id payload a)
after_probe-IsFor j event_id payload (answered done) h = h
after_probe-IsFor j event_id payload (answered busy) h = h
after_probe-IsFor j event_id payload (answered acquired) h = h
after_probe-IsFor j event_id payload (answered unknown) h = h
after_probe-IsFor j event_id payload failed h = h

after_publish-IsFor :
    (j event_id : String) (since : ℕ) (a : Answer (Unit {0}))
    → event_id ≡ j
    → IsFor j (after_publish event_id since a)
after_publish-IsFor j event_id since (answered x) h = h
after_publish-IsFor j event_id since failed h = h

after_done-IsFor :
    (j event_id : String) (published : Bool) (a : Answer (Unit {0}))
    → event_id ≡ j
    → IsFor j (after_done event_id published a)
after_done-IsFor j event_id published (answered x) h = h
after_done-IsFor j event_id true failed h = h
after_done-IsFor j event_id false failed h = h

module _ {S : Type 0} (setting : Setting S) (i : ℕ) where
  open setting use {redis, unmarshal, payload_of}

  after_claim-IsFor :
      (j event_id : String) (payload : Json) (now : ℕ) (a : Answer Bool)
      → event_id ≡ j
      → IsFor j (after_claim redis unmarshal event_id payload now a)
  after_claim-IsFor j event_id payload now (answered true) h =
      claimed-IsFor j event_id now (unmarshal payload) h
  after_claim-IsFor j event_id payload now (answered false) h = h
  after_claim-IsFor j event_id payload now failed h = h

  set_pc-IsFor :
      (event_id : String) (j : ℕ) (p : Pc) (pc : ℕ → Pc)
      → (j ≡ i → IsFor event_id p)
      → IsFor event_id (pc i)
      → IsFor event_id (set_pc j p pc i)
  set_pc-IsFor event_id j p pc new old = by_test (j == i) (λ e. new (ground arith))
    where
      by_test : (b : Bool) → (b ≡ true → IsFor event_id p) → IsFor event_id (if b then p else pc i)
      by_test true k = k refl
      by_test false k = old

  set_pc-same : (p : Pc) (pc : ℕ → Pc) → set_pc i p pc i ≡ p
  set_pc-same p pc = ground arith

  advance-IsFor :
      (event_id : String) (p : Pc) (now : ℕ) (s : S)
      → IsFor event_id p
      → IsFor event_id (advance redis unmarshal p now s).0
  unfolding advance
  advance-IsFor j idle now s h = h
  advance-IsFor j (claiming event_id payload) now s h =
      after_claim-IsFor j event_id payload now
        (redis.set_nx (dedup_key event_id) state_processing lease_ttl now s).0 h
  advance-IsFor j (probing event_id payload) now s h =
      after_probe-IsFor j event_id payload (claim_of_value (redis.get (dedup_key event_id) now s).0)
        h
  advance-IsFor j (waiting event_id payload) now s h = h
  advance-IsFor j (publishing event_id e since) now s h = after_publish-IsFor j event_id since _ h
  advance-IsFor j (marking event_id published since) now s h =
      after_done-IsFor j event_id published (mark_done redis event_id now s).0 h
  advance-IsFor j (returned event_id r) now s h = h

  start-IsFor : (event_id : String) (value : Json) → IsFor event_id (handle_start event_id value)
  unfolding handle_start
  start-IsFor event_id value = elim (Bool-cases (str_eq event_id "")) [
    | inl empty ↦ rw empty refl
    | inr given ↦ rw given refl
  ]

  cancel-IsFor : (event_id : String) (p : Pc) → IsFor event_id p → IsFor event_id (cancel p)
  cancel-IsFor event_id idle h = h
  cancel-IsFor event_id (claiming j payload) h = h
  cancel-IsFor event_id (probing j payload) h = h
  cancel-IsFor event_id (waiting j payload) h = h
  cancel-IsFor event_id (publishing j e since) h = h
  cancel-IsFor event_id (marking j published since) h = h
  cancel-IsFor event_id (returned j r) h = h

  happen-IsFor :
      (event_id : String) (x : Event) (st : System S)
      → Spares i x
      → IsFor event_id (st.pc i)
      → IsFor event_id ((happen setting x st).pc i)
  unfolding happen
  happen-IsFor event_id (begins j other) st is h =
      set_pc-IsFor event_id j _ st.pc (λ e. absurd (ground arith)) h
  happen-IsFor event_id (advances j) st is h =
      set_pc-IsFor event_id j _ st.pc
        (λ e.
          advance-IsFor event_id (st.pc j) st.now st.redis
            (subst (λ k. IsFor event_id (st.pc k)) (sym e) h))
        h
  happen-IsFor event_id (cancels j) st is h =
      set_pc-IsFor event_id j _ st.pc
        (λ e. cancel-IsFor event_id (st.pc j) (subst (λ k. IsFor event_id (st.pc k)) (sym e) h)) h
  happen-IsFor event_id (dies j) st is h =
      set_pc-IsFor event_id j _ st.pc (λ e. absurd (ground arith)) h
  happen-IsFor event_id (passes d) st is h = h

  happens-IsFor :
      (event_id : String) (xs : List Event) (st : System S)
      → All (Spares i) xs
      → IsFor event_id (st.pc i)
      → IsFor event_id ((happens setting xs st).pc i)
  unfolding happens
  happens-IsFor event_id [] st is h = h
  happens-IsFor event_id (x ∷ xs) st is h =
      happens-IsFor event_id xs (happen setting x st) is.1 (happen-IsFor event_id x st is.0 h)

  -- From the start of a call to what others let happen, it is about its event.
  pub call-IsFor :
      (event_id : String) (value : Json) (xs : List Event) (st : System S)
      → All (Spares i) xs
      → IsFor event_id (
          (happens setting xs (record st { pc = set_pc i (handle_start event_id value) st.pc })).pc
            i)
  call-IsFor event_id value xs st is =
      happens-IsFor event_id xs (record st { pc = set_pc i (handle_start event_id value) st.pc }) is
        (subst (IsFor event_id) (sym (set_pc-same (handle_start event_id value) st.pc))
          (start-IsFor event_id value))
