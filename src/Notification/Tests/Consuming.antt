-- ===== src/Notification/Tests/Consuming.antt =====
-- A consumer whose handler fails twice, and one with a processor beside another one.
use equilibra.Common.{
  ℕ, zero, suc, ◌≡◌, refl, subst, ap, String, Bool, true, false, List, [], ◌∷◌, ◌++◌, All, exists,
  str_eq, eq_iff, arith, if◌then◌else◌,
}
use equilibra.Common.Int.{pos}
use equilibra.Events.Document.{Json}
use equilibra.Publisher.{KafkaRecord}
use equilibra.Notification.Dedup.{dedup_key}
use equilibra.Notification.Processor.{finished, retry, redis_failed, advance, handle_start}
use equilibra.Notification.Processor.System.{Event, begins, advances, dies, passes, happens}
use equilibra.Notification.Consumer.{
  Handler, Round, Progress, run, event_id_of, handle_all, attempt,
}
use equilibra.Notification.Consumer.Batches.{Contract, Keeps, Fulfilled}
use equilibra.Notification.Consumer.Commits.{run-commits, all_fetched, start_of}
use equilibra.Notification.Consumer.Notifying.{Surroundings, handle_beside, notifying, run-notifies}
use equilibra.Notification.Processor.Subject.{Spares}
use equilibra.Notification.Tests.{setting, quiet}
use equilibra.Notification.Tests.InMemory.{Memory, memory-IsRedis}

-- A handler that fails as often as the number says, and notes the events it has finished.
abbrev flaky : Handler (ℕ × List String)
flaky event_id value (zero, l) = (finished, (zero, event_id ∷ l))
flaky event_id value (suc n, l) = (retry redis_failed, (n, l))

abbrev IsNoted : String → Json → ℕ × List String → Type 0
IsNoted event_id value (n, l) = exists (λ j. str_eq j event_id) l ≡ true

flaky-holds :
    (event_id : String) (value : Json) (w w' : ℕ × List String)
    → flaky event_id value w ≡ (finished, w')
    → IsNoted event_id value w'
unfolding exists
flaky-holds event_id value (zero, l) w' e =
    subst (IsNoted event_id value) (ap (λ r. r.1) e)
      (ap (λ b. if b then true else exists (λ j. str_eq j event_id) l) ((eq_iff _ _).1 refl))
flaky-holds event_id value (suc n, l) w' e = absurd (cc)

flaky-stays :
    (event_id other : String) (value payload : Json) (w : ℕ × List String)
    → IsNoted event_id value w
    → IsNoted event_id value (flaky other payload w).1
unfolding exists
flaky-stays event_id other value payload (zero, l) h = ground (arith, h)
flaky-stays event_id other value payload (suc n, l) h = h

abbrev noted : Contract (ℕ × List String)
noted = record { is_asked = λ j x. Unit; is_sound = λ w. Unit; fulfils = IsNoted }

flaky-Keeps : Keeps flaky noted
flaky-Keeps event_id value w asked sound = record {
  sound = tt;
  stays = λ j x. flaky-stays j event_id x value w;
  holds = λ e. flaky-holds event_id value w _ (ap (λ h. (h, (flaky event_id value w).1)) e);
}

abbrev record_of : String → Json → KafkaRecord
record_of event_id value = record {
  key = b'7' ∷ [];
  value = value;
  headers = ("event_type", "entry.posted") ∷ ("event_id", event_id) ∷ [];
}

abbrev round : List KafkaRecord → Bool → Bool → Round
round fetched commits ends = record {
  stopped = ends;
  fetched = fetched;
  commits = commits;
  cancelled = ends;
}

-- The second commit fails; the client is closed at the third poll.
abbrev three_rounds : List Round
three_rounds =
    round (record_of "e1" Json.null ∷ record_of "e2" Json.null ∷ []) true false
    ∷ round (record_of "e3" Json.null ∷ []) false false
    ∷ round (record_of "e4" Json.null ∷ []) true true
    ∷ []

abbrev with_flaky : Progress (ℕ × List String)
with_flaky = run flaky three_rounds (start_of 5 (2, []))

run-commits_example :
    All (Fulfilled noted with_flaky.world) with_flaky.committed
    × ((left : List KafkaRecord) × (all_fetched three_rounds ≡ with_flaky.finished_records ++ left))
run-commits_example =
    run-commits flaky noted flaky-Keeps three_rounds 5 (2, [])
      ((tt, (tt, tt)), ((tt, tt), ((tt, tt), tt))) tt

-- What is committed of these rounds.
committed_test : with_flaky.committed ≡ record_of "e1" Json.null ∷ record_of "e2" Json.null ∷ []
unfolding run handle_all attempt event_id_of
committed_test = refl

-- Another processor has reserved the event and dies; this one waits until the reservation lapses.
abbrev beside_another : ℕ → List Event
beside_another zero =
    begins 1 "e1"
    ∷ advances 1
    ∷ advances 0
    ∷ advances 0
    ∷ dies 1
    ∷ passes 31
    ∷ advances 0
    ∷ advances 0
    ∷ advances 0
    ∷ advances 0
    ∷ []
beside_another (suc n) = advances 0 ∷ advances 0 ∷ advances 0 ∷ []

beside_another-Spares : (n : ℕ) → All (Spares 0) (beside_another n)
beside_another-Spares zero = (refl, (tt, (tt, (tt, (refl, (tt, (tt, (tt, (tt, (tt, tt))))))))))
beside_another-Spares (suc n) = (tt, (tt, (tt, tt)))

abbrev workplace : Surroundings Memory
workplace = record { system = quiet; during = beside_another }

abbrev two_rounds : List Round
two_rounds =
    round (record_of "e1" (Json.num (pos 30)) ∷ []) true false
    ∷ round (record_of "e2" (Json.text "?") ∷ []) true false
    ∷ []

abbrev with_processor : Progress (Surroundings Memory)
with_processor = run (handle_beside setting 0) two_rounds (start_of 3 workplace)

run-notifies_example :
    All (Fulfilled (notifying setting 0) with_processor.world) with_processor.committed
    × ((left : List KafkaRecord) × (all_fetched two_rounds
          ≡ with_processor.finished_records ++ left))
unfolding event_id_of
run-notifies_example =
    run-notifies setting 0 memory-IsRedis two_rounds 3 workplace ((refl, tt), ((refl, tt), tt))
      (λ j. refl) (λ j u le e. absurd (cc)) beside_another-Spares

-- Both records are committed.
both_test :
    with_processor.committed
    ≡ record_of "e1" (Json.num (pos 30)) ∷ record_of "e2" (Json.text "?") ∷ []
unfolding run handle_all attempt event_id_of happens advance handle_start dedup_key
both_test = refl
