-- ===== src/Notification/Processor/Alone.antt =====
-- `Handle` from its claim to its return, with nobody else at work: it ends.
use equilibra.Common.{
  inl, inr, ℕ, zero, suc, ◌+◌, ◌≤◌, ◌≡◌, ◌≢◌, refl, sym, subst, ◌∙◌, String, Bool, true, false,
  Option, none, some, str_eq, arith, if◌then◌else◌,
}
use equilibra.Events.{EntryPosted}
use equilibra.Events.Document.{Json}
use equilibra.Notification.Message.{notification, envelope, notifications_channel}
use equilibra.Notification.Redis.{Redis, IsRedis, answered, SameValues, SetNxAnswers, GetAnswers}
use equilibra.Notification.Dedup.{
  dedup_key, state_done, state_processing, lease_ttl, done_ttl, mark_done, done, busy,
}
use equilibra.Notification.Processor.{
  Pc, claiming, probing, waiting, marking, returned, finished, after_probe, claimed, advance,
}

-- In seconds.
abbrev pub retry_interval : ℕ
retry_interval = 1

-- The time when a step is over: only the wait of `ClaimBusy` takes any.
abbrev pub after_wait : Pc → ℕ → ℕ
after_wait (waiting event_id payload) now = now + retry_interval
after_wait p now = now

module _ {S : Type 0} (redis : Redis S) (unmarshal : Json → Option EntryPosted) where
  -- The steps of a call, as many as the fuel.
  unfoldable pub run_call : ℕ → Pc → ℕ → S → Pc × S
  run_call zero p now s = (p, s)
  run_call (suc f) p now s =
      let (p', s') = advance redis unmarshal p now s in run_call f p' (after_wait p now) s'

  -- No command fails, and none is sent again: `SetNX` answers false for another's value only.
  pub record IsAnswering : Type 0 where
    pub set_nx_answered :
        (k v : String) (ttl t : ℕ) (s : S)
        → (b : Bool) × (s' : S) × (redis.set_nx k v ttl t s ≡ (answered b, s'))
    pub set_nx_once :
        (k v : String) (ttl t : ℕ) (s : S) {s' : S}
        → redis.set_nx k v ttl t s ≡ (answered false, s')
        → redis.value k t s ≢ none
    pub get_answered :
        (k : String) (t : ℕ) (s : S)
        → (r : Option String) × (s' : S) × (redis.get k t s ≡ (answered r, s'))
    pub set_answered :
        (k v : String) (ttl t : ℕ) (s : S) → (s' : S) × (redis.set k v ttl t s ≡ (answered tt, s'))
    pub publish_answered :
        (c : String) (m : Json) (s : S) → (s' : S) × (redis.publish c m s ≡ (answered tt, s'))

  -- Three steps for each second of the wait, and three for the rest.
  abbrev pub enough_fuel : ℕ → ℕ
  enough_fuel zero = 3
  enough_fuel (suc k) = suc (suc (suc (enough_fuel k)))

  run_call-returned :
      (f : ℕ) (event_id : String) (now : ℕ) (s : S)
      → (run_call f (returned event_id finished) now s).0 ≡ returned event_id finished
  unfolding run_call advance
  run_call-returned zero event_id now s = refl
  run_call-returned (suc f) event_id now s = run_call-returned f event_id now s

  module _ (answering : IsAnswering) where
    run_call-marking :
        (f : ℕ) (event_id : String) (published : Bool) (since now : ℕ) (s : S)
        → (run_call (suc f) (marking event_id published since) now s).0 ≡ returned event_id finished
    unfolding run_call advance mark_done
    run_call-marking f event_id published since now s =
        let (s', e) = answering.set_answered (dedup_key event_id) state_done done_ttl now s in
        rw (e, run_call) (run_call-returned f event_id now s')

    run_call-claimed :
        (f : ℕ) (event_id : String) (o : Option EntryPosted) (now : ℕ) (s : S)
        → (run_call (suc (suc f)) (claimed event_id now o) now s).0 ≡ returned event_id finished
    unfolding run_call advance
    run_call-claimed f event_id none now s = run_call-marking (suc f) event_id false now now s
    run_call-claimed f event_id (some x) now s =
        let (s', e) =
          answering.publish_answered notifications_channel
            (envelope x.account_id (notification event_id x)) s in
        rw (e, run_call) (run_call-marking f event_id true now now s')

    -- The reservation of another is gone by `now + k`.
    abbrev GoneIn : ℕ → String → ℕ → S → Type 0
    GoneIn k event_id now s = (u : ℕ) → now + k ≤ u → redis.value (dedup_key event_id) u s ≡ none

    GoneIn-next :
        (k : ℕ) (event_id : String) (now : ℕ) (s s' s'' : S)
        → SameValues redis s s'
        → SameValues redis s' s''
        → GoneIn (suc k) event_id now s
        → GoneIn k event_id (now + retry_interval) s''
    GoneIn-next k event_id now s s' s'' a b h u le =
        b (dedup_key event_id) u ∙ a (dedup_key event_id) u ∙ h u (omega (arith, le))

    module _ (law : IsRedis redis) (event_id : String) (payload : Json) where
      abbrev Finishes : ℕ → Pc → ℕ → S → Type 0
      Finishes f p now s = (run_call f p now s).0 ≡ returned event_id finished

      -- A busy reservation is probed, waited for, and claimed again.
      probe-Finishes :
          (f : ℕ) (now : ℕ) (s s' : S) (o : Option String)
          → redis.get (dedup_key event_id) now s ≡ (answered o, s')
          → o ≢ none
          → Finishes f (claiming event_id payload) (now + retry_interval) s'
          → Finishes (suc (suc f)) (probing event_id payload) now s
      unfolding run_call advance
      probe-Finishes f now s s' none e there again = absurd (there refl)
      probe-Finishes f now s s' (some v) e there again =
          rw (e, run_call) (by_test (str_eq v state_done))
        where
          by_test :
              (b : Bool)
              → (run_call
                  (suc f)
                  (after_probe event_id payload (answered (if b then done else busy)))
                  now
                  s').0
                ≡ returned event_id finished
          by_test true = run_call-returned (suc f) event_id now s'
          by_test false = again

      claim-Finishes :
          (f : ℕ) (now : ℕ) (s s' : S) (b : Bool)
          → redis.set_nx (dedup_key event_id) state_processing lease_ttl now s ≡ (answered b, s')
          → (b ≡ false → Finishes (suc (suc f)) (probing event_id payload) now s')
          → Finishes (suc (suc (suc f))) (claiming event_id payload) now s
      unfolding run_call advance
      claim-Finishes f now s s' true e later =
          rw (e, run_call) (run_call-claimed f event_id (unmarshal payload) now s')
      claim-Finishes f now s s' false e later = rw (e, run_call) (later refl)

      held_by_other :
          (now : ℕ) (s s' : S) (b : Bool)
          → redis.set_nx (dedup_key event_id) state_processing lease_ttl now s ≡ (answered b, s')
          → b ≡ false
          → (redis.value (dedup_key event_id) now s ≢ none) × SameValues redis s s'
      held_by_other now s s' true e no_claim = absurd (cc)
      held_by_other now s s' false e no_claim =
          let held =
            answering.set_nx_once (dedup_key event_id) state_processing lease_ttl now s e in
          elim (subst (SetNxAnswers redis (dedup_key event_id) state_processing lease_ttl now s) e
            (law.set_nx_answers (dedup_key event_id) state_processing lease_ttl now s)) [
              | inl found ↦ found
              | inr own ↦ absurd (held own.0)
            ]

      claiming-Finishes :
          (k now : ℕ) (s : S)
          → GoneIn k event_id now s
          → Finishes (enough_fuel k) (claiming event_id payload) now s
      claiming-Finishes zero now s gone =
          let (b, s', e) =
            answering.set_nx_answered (dedup_key event_id) state_processing lease_ttl now s in
          claim-Finishes 0 now s s' b e
            (λ refused. absurd ((held_by_other now s s' b e refused).0 (gone now (omega arith))))
      claiming-Finishes (suc k) now s gone =
          let (b, s', e) =
            answering.set_nx_answered (dedup_key event_id) state_processing lease_ttl now s in
          claim-Finishes (enough_fuel k) now s s' b e (λ refused.
            let (held, same) = held_by_other now s s' b e refused in
            let (o, s'', g) = answering.get_answered (dedup_key event_id) now s' in
            let (is, kept) =
              subst (GetAnswers redis (dedup_key event_id) now s') g
                (law.get_answers (dedup_key event_id) now s') in
            probe-Finishes (enough_fuel k) now s' s'' o g
              (λ empty. held (sym (same (dedup_key event_id) now) ∙ sym is ∙ empty))
              (claiming-Finishes k (now + retry_interval) s''
                (GoneIn-next k event_id now s s' s'' same kept gone)))

  -- Over a Redis that keeps its laws, with nobody else at work and every command answered when it is
  -- first sent, a call that claims an event returns without an error, if what reserves the event now
  -- is gone within `k` seconds: three steps for each of them and three more are enough.
  pub run_call-finishes :
      IsRedis redis
      → IsAnswering
      → (k : ℕ) (event_id : String) (payload : Json) (now : ℕ) (s : S)
      → ((u : ℕ) → now + k ≤ u → redis.value (dedup_key event_id) u s ≡ none)
      → (run_call (enough_fuel k) (claiming event_id payload) now s).0 ≡ returned event_id finished
  run_call-finishes law answering k event_id payload now s gone =
      claiming-Finishes answering law event_id payload k now s gone
