-- ===== src/Notification/Processor/Told/Events.antt =====
-- Every event of the system keeps the invariant, and the log grows.
use equilibra.Common.{
  ℕ, ◌≤◌, ◌≡◌, ◌≢◌, refl, sym, subst, ◌⊎◌, inl, inr, String, Bool, true, false, some, List, [], ◌∷◌,
  ◌==◌, str_eq, eq_iff, Bool-cases, arith, if◌then◌else◌,
}
use equilibra.Notification.Redis.{IsRedis}
use equilibra.Notification.Dedup.{dedup_key, state_done}
use equilibra.Notification.Processor.{
  Pc, idle, claiming, probing, waiting, publishing, marking, returned, finished, handle_start,
  cancel,
}
use equilibra.Notification.Processor.System.{Setting, System, set_pc, Event, happen, happens}
use equilibra.Notification.Processor.Told.{Settled, Tells, IsTold, Grows, Tells-Grows}
use equilibra.Notification.Processor.Told.Commands.{advance-Steps}

module _ {S : Type 0} (w : Setting S) where
  open w use {redis, unmarshal, payload_of}

  start-Tells :
      (event_id : String) (s : S) → Tells w (handle_start event_id (payload_of event_id)) s
  unfolding handle_start
  start-Tells event_id s = elim (Bool-cases (str_eq event_id "")) [
    | inl empty ↦ rw empty (inl ((eq_iff event_id "").0 empty))
    | inr given ↦ rw given refl
  ]

  cancel-Tells : (p : Pc) (s : S) → Tells w p s → Tells w (cancel p) s
  cancel-Tells (waiting event_id payload) s t = tt
  cancel-Tells idle s t = tt
  cancel-Tells (claiming event_id payload) s t = t
  cancel-Tells (probing event_id payload) s t = t
  cancel-Tells (publishing event_id x since) s t = t
  cancel-Tells (marking event_id published since) s t = t
  cancel-Tells (returned event_id h) s t = t

  set_pc-Tells :
      (i : ℕ) (p : Pc) (pc : ℕ → Pc) (s : S) (j : ℕ)
      → Tells w p s
      → Tells w (pc j) s
      → Tells w (set_pc i p pc j) s
  set_pc-Tells i p pc s j new old = by_test (i == j)
    where
      by_test : (b : Bool) → Tells w (if b then p else pc j) s
      by_test true = new
      by_test false = old

  pub happen-IsTold :
      IsRedis redis → (x : Event) (st : System S) → IsTold w st → IsTold w (happen w x st)
  unfolding happen
  happen-IsTold law (Event.begins i event_id) st v = record {
    done_settled = v.done_settled;
    tells = λ j. set_pc-Tells i _ st.pc st.redis j (start-Tells event_id st.redis) (v.tells j);
  }
  happen-IsTold law (Event.advances i) st v =
      let k = advance-Steps w law (st.pc i) st.now st.redis (v.tells i) v.done_settled in
      record {
        done_settled = k.done_settled;
        tells = λ j.
            set_pc-Tells i _ st.pc _ j k.tells
              (Tells-Grows w (st.pc j) st.redis _ k.grows (v.tells j));
      }
  happen-IsTold law (Event.cancels i) st v = record {
    done_settled = v.done_settled;
    tells = λ j.
        set_pc-Tells i _ st.pc st.redis j (cancel-Tells (st.pc i) st.redis (v.tells i)) (v.tells j);
  }
  happen-IsTold law (Event.dies i) st v = record {
    done_settled = v.done_settled;
    tells = λ j. set_pc-Tells i idle st.pc st.redis j tt (v.tells j);
  }
  happen-IsTold law (Event.passes d) st v = record {
    done_settled = λ event_id u le is. v.done_settled event_id u (omega (arith, le)) is;
    tells = v.tells;
  }

  pub happens-IsTold :
      IsRedis redis → (xs : List Event) (st : System S) → IsTold w st → IsTold w (happens w xs st)
  unfolding happens
  happens-IsTold law [] st v = v
  happens-IsTold law (x ∷ xs) st v =
      happens-IsTold law xs (happen w x st) (happen-IsTold law x st v)

  happen-Grows :
      IsRedis redis
      → (x : Event) (st : System S) → IsTold w st
      → Grows w st.redis (happen w x st).redis
  unfolding happen
  happen-Grows law (Event.begins i event_id) st v = λ m h. h
  happen-Grows law (Event.advances i) st v =
      (advance-Steps w law (st.pc i) st.now st.redis (v.tells i) v.done_settled).grows
  happen-Grows law (Event.cancels i) st v = λ m h. h
  happen-Grows law (Event.dies i) st v = λ m h. h
  happen-Grows law (Event.passes d) st v = λ m h. h

  pub happens-Grows :
      IsRedis redis
      → (xs : List Event) (st : System S) → IsTold w st
      → Grows w st.redis (happens w xs st).redis
  unfolding happens
  happens-Grows law [] st v = λ m h. h
  happens-Grows law (x ∷ xs) st v = λ m h.
      happens-Grows law xs (happen w x st) (happen-IsTold law x st v) m
        (happen-Grows law x st v m h)

  -- Nothing is under way, and nothing is marked as done.
  pub quiet-IsTold :
      (st : System S)
      → ((j : ℕ) → st.pc j ≡ idle)
      → ((j : String) (u : ℕ) → st.now ≤ u → redis.value (dedup_key j) u st.redis ≢ some state_done)
      → IsTold w st
  quiet-IsTold st quiet undone = record {
    done_settled = λ j u le e. absurd (undone j u le e);
    tells = λ j. subst (λ p. Tells w p st.redis) (sym (quiet j)) tt;
  }

  -- Over a Redis that keeps its laws, whatever processors do, die and wait in whatever order,
  -- starting with no call under way and no event marked as done: an event that a call has finished
  -- without an error, or that is marked as done, has had its notification published under the
  -- account of its payload, unless its payload is malformed or its id is empty.
  pub happens-Settled :
      IsRedis redis
      → (xs : List Event) (st : System S) → ((j : ℕ) → st.pc j ≡ idle)
      → ((j : String) (u : ℕ) → st.now ≤ u → redis.value (dedup_key j) u st.redis ≢ some state_done)
      → (i : ℕ) (event_id : String) → event_id ≢ ""
      → let end = happens w xs st in
        (end.pc i ≡ returned event_id finished)
          ⊎ (redis.value (dedup_key event_id) end.now end.redis ≡ some state_done)
        → Settled w event_id (happens w xs st).redis
  happens-Settled law xs st quiet undone i event_id given h =
      let v = happens-IsTold law xs st (quiet-IsTold st quiet undone) in
      elim h [
        | inl returned_ok ↦
            named (subst (λ p. Tells w p (happens w xs st).redis) returned_ok (v.tells i))
        | inr marked ↦ v.done_settled event_id (happens w xs st).now (omega arith) marked
      ]
    where
      named :
          (event_id ≡ "") ⊎ Settled w event_id (happens w xs st).redis
          → Settled w event_id (happens w xs st).redis
      named (inl empty) = absurd (given empty)
      named (inr settled) = settled
