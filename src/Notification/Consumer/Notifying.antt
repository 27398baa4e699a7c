-- ===== src/Notification/Consumer/Notifying.antt =====
-- The consumer with its processor as the handler, beside any number of other processors: what is
-- committed has been notified.
use equilibra.Common.{
  ℕ, suc, ◌≤◌, ◌≡◌, ◌≢◌, sym, subst, ◌⊎◌, inl, inr, String, some, List, ◌++◌, All,
}
use equilibra.Events.Document.{Json}
use equilibra.Publisher.{KafkaRecord}
use equilibra.Notification.Redis.{IsRedis}
use equilibra.Notification.Dedup.{dedup_key, state_done}
use equilibra.Notification.Processor.{
  Pc, idle, claiming, probing, waiting, publishing, marking, returned, Handled, finished, retry,
  cancelled, handle_start,
}
use equilibra.Notification.Processor.System.{
  Setting, System, set_pc, Event, begins, happen, happens,
}
use equilibra.Notification.Processor.Subject.{Spares, IsFor, call-IsFor}
use equilibra.Notification.Processor.Told.{Settled, Settled-Grows, IsTold, Tells}
use equilibra.Notification.Processor.Told.Events.{
  happen-IsTold, happens-IsTold, happens-Grows, quiet-IsTold,
}
use equilibra.Notification.Consumer.{Handler, Round, run}
use equilibra.Notification.Consumer.Batches.{Contract, Keeps, Fulfilled}
use equilibra.Notification.Consumer.Commits.{AreAsked, all_fetched, start_of, run-commits}

-- The system, and for each call to come what happens until it is over.
pub record Surroundings (S : Type 0) : Type 0 where
  pub system : System S
  pub during : ℕ → List Event

-- A call that has not returned by then sees its context cancelled.
abbrev pub outcome_of : Pc → Handled
outcome_of (returned event_id h) = h
outcome_of p = retry cancelled

module _ {S : Type 0} (setting : Setting S) (i : ℕ) where
  open setting use {redis, unmarshal, payload_of}

  abbrev begun : String → Json → System S → System S
  begun event_id value st = record st { pc = set_pc i (handle_start event_id value) st.pc }

  abbrev after_call : String → Json → Surroundings S → System S
  after_call event_id value w = happens setting (w.during 0) (begun event_id value w.system)

  -- `Handle` of processor `i`.
  abbrev pub handle_beside : Handler (Surroundings S)
  handle_beside event_id value w = (
    outcome_of ((after_call event_id value w).pc i),
    record { system = after_call event_id value w; during = λ n. w.during (suc n) },
  )

  abbrev pub notifying : Contract (Surroundings S)
  notifying = record {
    is_asked = λ event_id value. value ≡ payload_of event_id;
    is_sound = λ w. IsTold setting w.system × ((n : ℕ) → All (Spares i) (w.during n));
    fulfils = λ event_id value w. (event_id ≡ "") ⊎ Settled setting event_id w.system.redis;
  }

  begun-IsTold :
      (event_id : String) (value : Json) (st : System S)
      → IsRedis redis
      → value ≡ payload_of event_id
      → IsTold setting st
      → IsTold setting (begun event_id value st)
  unfolding happen
  begun-IsTold event_id value st law is v =
      subst (λ x. IsTold setting (begun event_id x st)) (sym is)
        (happen-IsTold setting law (begins i event_id) st v)

  -- A success is the return of this call.
  success-Settled :
      (event_id : String) (p : Pc) (s : S)
      → IsFor event_id p
      → Tells setting p s
      → outcome_of p ≡ finished
      → (event_id ≡ "") ⊎ Settled setting event_id s
  success-Settled event_id (returned j finished) s is t e =
      subst (λ k. (k ≡ "") ⊎ Settled setting k s) is t
  success-Settled event_id (returned j (retry f)) s is t e = absurd (cc)
  success-Settled event_id idle s is t e = absurd is
  success-Settled event_id (claiming j x) s is t e = absurd (cc)
  success-Settled event_id (probing j x) s is t e = absurd (cc)
  success-Settled event_id (waiting j x) s is t e = absurd (cc)
  success-Settled event_id (publishing j x since) s is t e = absurd (cc)
  success-Settled event_id (marking j x since) s is t e = absurd (cc)

  handle_beside-Keeps : IsRedis redis → Keeps handle_beside notifying
  handle_beside-Keeps law event_id value w asked sound =
      let v = begun-IsTold event_id value w.system law asked sound.0 in
      let st = begun event_id value w.system in
      let v' = happens-IsTold setting law (w.during 0) st v in
      record {
        sound = (v', λ n. sound.1 (suc n));
        stays = λ j x. or_settled j (
            Settled-Grows setting j w.system.redis _ (happens-Grows setting law (w.during 0) st v));
        holds =
            success-Settled event_id ((after_call event_id value w).pc i) _
              (call-IsFor setting i event_id value (w.during 0) w.system (sound.1 0)) (v'.tells i);
      }
    where
      or_settled :
          (j : String) {s s' : S}
          → (Settled setting j s → Settled setting j s')
          → (j ≡ "") ⊎ Settled setting j s
          → (j ≡ "") ⊎ Settled setting j s'
      or_settled j k (inl empty) = inl empty
      or_settled j k (inr settled) = inr (k settled)

  -- Over a Redis that keeps its laws, starting with no call under way and no event marked as done,
  -- whatever other processors do, die and wait during the calls of the consumer's own processor,
  -- which gets no other record and does not die: when each record that is fetched has the payload of
  -- its event, every record in a successful commit has an empty event id, or a malformed payload, or
  -- has had its notification published under the account of its payload; and the records passed to
  -- commits are, in order, an initial part of those fetched.
  pub run-notifies :
      IsRedis redis
      → (rounds : List Round) (patience : ℕ) (w : Surroundings S) → AreAsked notifying rounds
      → ((j : ℕ) → w.system.pc j ≡ idle)
      → ((j : String) (u : ℕ)
          → w.system.now ≤ u
          → redis.value (dedup_key j) u w.system.redis ≢ some state_done)
      → ((n : ℕ) → All (Spares i) (w.during n))
      → let g = run handle_beside rounds (start_of patience w) in
        All (Fulfilled notifying g.world) g.committed
        × ((left : List KafkaRecord) × (all_fetched rounds ≡ g.finished_records ++ left))
  run-notifies law rounds patience w asked quiet undone spared =
      run-commits handle_beside notifying (handle_beside-Keeps law) rounds patience w asked
        (quiet-IsTold setting w.system quiet undone, spared)
