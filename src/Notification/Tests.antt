-- ===== src/Notification/Tests.antt =====
-- Two processors on one event, the first of which dies with its reservation; and a claim after a
-- mark.
mod InMemory
mod Consuming
use equilibra.Common.{
  ℕ, zero, suc, ◌+◌, ◌≡◌, ◌<◌, ◌≤◌, refl, sym, subst, ap, ◌∙◌, ◌⊎◌, inl, inr, String, Bool, true,
  false, Option, none, some, List, [], ◌∷◌, ◌++◌, All, exists, str_eq, eq_iff, arith, if◌then◌else◌,
}
use equilibra.Common.Int.{pos}
use equilibra.Storage.Schema.{TxType}
use equilibra.Events.{EntryPosted}
use equilibra.Events.Document.{Json}
use equilibra.Publisher.{KafkaRecord}
use equilibra.Notification.Redis.{answered}
use equilibra.Notification.Dedup.{
  ClaimResult, done, claim, mark_done, dedup_key, state_done, state_processing, lease_ttl,
}
use equilibra.Notification.Dedup.Claims.{ClaimAnswers, claim-ClaimAnswers, claim-mark_done}
use equilibra.Notification.Processor.{
  Handled, finished, retry, redis_failed, Pc, idle, claiming, returned, handle_start, advance,
}
use equilibra.Notification.Processor.System.{
  System, Setting, Event, begins, advances, cancels, dies, passes, happens,
}
use equilibra.Notification.Processor.Told.{Settled}
use equilibra.Notification.Processor.Told.Events.{happens-Settled}
use equilibra.Notification.Processor.Lease.Exclusive.{happens-alone}
use equilibra.Notification.Processor.Alone.{IsAnswering, enough_fuel, run_call, run_call-finishes}
use InMemory.{Memory, alive, stored, memory, memory-IsRedis, memory-IsAnswering, empty}

abbrev entry : EntryPosted
entry = record {
  account_id = pos 7;
  transaction_id = pos 1;
  transaction_type = TxType.deposit;
  amount = pos 30;
  currency = "USD";
  counterparty_id = pos 1;
  reversal_of = none;
  occurred_at = 0;
}

-- A number stands for the entry; nothing else can be read.
abbrev decode : Json → Option EntryPosted
decode (Json.num n) = some entry
decode m = none

abbrev pub setting : Setting Memory
setting = record {
  redis = memory;
  unmarshal = decode;
  payload_of = λ j. if str_eq j "e1" then Json.num (pos 30) else Json.text "?";
}

abbrev pub quiet : System Memory
quiet = record { now = 100; redis = empty; pc = λ i. idle }

-- The second processor waits until the reservation of the first has lapsed.
abbrev takeover : List Event
takeover =
    begins 0 "e1"
    ∷ advances 0
    ∷ begins 1 "e1"
    ∷ advances 1
    ∷ advances 1
    ∷ dies 0
    ∷ passes 31
    ∷ advances 1
    ∷ advances 1
    ∷ []

abbrev to_the_end : List Event
to_the_end = takeover ++ advances 1 ∷ advances 1 ∷ []

happens-Settled_example : Settled setting "e1" (happens setting to_the_end quiet).redis
unfolding happens handle_start advance mark_done dedup_key
happens-Settled_example =
    happens-Settled setting memory-IsRedis to_the_end quiet (λ j. refl) (λ j u le e. absurd (cc)) 1
      "e1" (λ e. absurd (cc)) (inl refl)

abbrev second : ℕ
second = 1

happens-alone_example : second ≡ second
unfolding happens handle_start advance mark_done dedup_key
happens-alone_example =
    happens-alone setting memory-IsRedis takeover quiet (λ j. refl) second second "e1" 131 131 refl
      refl (omega arith) (omega arith)

-- Reserved by another, for three seconds more.
abbrev reserved_until : Memory
reserved_until = stored (dedup_key "e1") "processing" 103 empty

-- The reservation lapses between the two commands.
claim-ClaimAnswers_example :
    let s1 = (memory.set_nx (dedup_key "e1") state_processing lease_ttl 102 reserved_until).1 in
    ClaimAnswers memory "e1" 102 104 reserved_until s1 s1
      (claim memory "e1" 102 104 (λ s. s) reserved_until)
claim-ClaimAnswers_example =
    claim-ClaimAnswers memory memory-IsRedis "e1" 102 104 (λ s. s) reserved_until

lapsed_test : (claim memory "e1" 102 104 (λ s. s) reserved_until).0 ≡ answered ClaimResult.busy
unfolding claim dedup_key
lapsed_test = refl

abbrev marked : Memory
marked = stored (dedup_key "e1") state_done (100 + 86400) empty

claim-mark_done_example : ClaimResult.done ≡ ClaimResult.done
unfolding claim mark_done dedup_key
claim-mark_done_example =
    claim-mark_done memory memory-IsRedis "e1" 100 200 201 (λ s. s) empty marked done refl
      (omega arith) (omega arith) (omega arith) (λ x v. refl) refl

run_call-finishes_example :
    (run_call memory decode
      (enough_fuel memory decode 3)
      (claiming "e1" (Json.num (pos 30)))
      100
      reserved_until).0
    ≡ returned "e1" finished
unfolding dedup_key
run_call-finishes_example =
    run_call-finishes memory decode memory-IsRedis (memory-IsAnswering decode) 3 "e1"
      (Json.num (pos 30)) 100 reserved_until (λ u le. ground arith)
