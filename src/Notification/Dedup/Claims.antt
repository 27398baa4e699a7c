-- ===== src/Notification/Dedup/Claims.antt =====
-- What a claim answers, and how long an event stays done.
use equilibra.Common.{
  ℕ, ◌+◌, ◌≤◌, ◌<◌, ◌≡◌, ◌≢◌, ◌⊎◌, refl, sym, subst, ap, ◌∙◌, String, Bool, true, false, Option,
  none, some, ltb, str_eq, eq_iff, Bool-cases, some_injective, inl, inr, arith,
}
use equilibra.Notification.Redis.{
  Redis, IsRedis, Answer, answered, failed, SameValues, Stored, SetNxAnswers, GetAnswers,
  SetAnswers,
}
use equilibra.Notification.Dedup.{
  ClaimResult, unknown, acquired, done, busy, claim_of_value, dedup_key, state_processing,
  state_done, lease_ttl, done_ttl, after_set_nx, claim, mark_done,
}

module _ {S : Type 0} (redis : Redis S) where
  -- At time `t` the key had a value, and nothing has changed; or the claim's own `SetNX`, sent again,
  -- met the value that it had set.
  abbrev pub Refused : String → ℕ → S → S → Type 0
  Refused event_id t s s1 =
      ((redis.value (dedup_key event_id) t s ≢ none) × SameValues redis s s1)
      ⊎ ((redis.value (dedup_key event_id) t s ≡ none)
          × Stored redis (dedup_key event_id) state_processing lease_ttl t s s1)

  -- What each answer says of the key: `s` is before the claim, `s1` after its `SetNX`, `s2` before
  -- its `Get`, and the last state after the claim.
  abbrev pub ClaimAnswers : String → ℕ → ℕ → S → S → S → Answer ClaimResult × S → Type 0
  ClaimAnswers event_id t u s s1 s2 (answered acquired, s') =
      (redis.value (dedup_key event_id) t s ≡ none)
      × ((v : ℕ)
          → t ≤ v
          → v < t + lease_ttl
          → redis.value (dedup_key event_id) v s' ≡ some state_processing)
  ClaimAnswers event_id t u s s1 s2 (answered done, s') =
      Refused event_id t s s1
      × (redis.value (dedup_key event_id) u s2 ≡ some state_done)
      × SameValues redis s2 s'
  ClaimAnswers event_id t u s s1 s2 (answered busy, s') =
      Refused event_id t s s1
      × (redis.value (dedup_key event_id) u s2 ≢ some state_done)
      × SameValues redis s2 s'
  ClaimAnswers event_id t u s s1 s2 (answered unknown, s') = ⊥
  ClaimAnswers event_id t u s s1 s2 (failed, s') = Unit

  value-ClaimAnswers :
      (event_id : String) (t u : ℕ) (s s1 s2 s' : S) (o : Option String)
      → Refused event_id t s s1
      → o ≡ redis.value (dedup_key event_id) u s2
      → SameValues redis s2 s'
      → ClaimAnswers event_id t u s s1 s2 (claim_of_value (answered o), s')
  value-ClaimAnswers event_id t u s s1 s2 s' none refused is same =
      (refused, λ e. cc (is ∙ e), same)
  value-ClaimAnswers event_id t u s s1 s2 s' (some v) refused is same =
      elim (Bool-cases (str_eq v state_done)) [
        | inl yes_done ↦
            rw yes_done (refused, sym is ∙ ap some ((eq_iff v state_done).0 yes_done), same)
        | inr not_done ↦ rw not_done (
          refused,
          λ e. cc (sym not_done ∙ (eq_iff v state_done).1 (some_injective (is ∙ e))),
          same,
        )
      ]

  set_nx-ClaimAnswers :
      IsRedis redis
      → (event_id : String) (t u : ℕ) (meanwhile : S → S) (s : S) (r : Answer Bool × S)
      → SetNxAnswers redis (dedup_key event_id) state_processing lease_ttl t s r
      → ClaimAnswers event_id t u s r.1 (meanwhile r.1) (after_set_nx redis event_id u meanwhile r)
  set_nx-ClaimAnswers law event_id t u meanwhile s (answered true, s1) a = (
    a.0,
    λ v le lt.
        let own : str_eq (dedup_key event_id) (dedup_key event_id) ≡ true = (eq_iff _ _).1 refl in
        let inside : ltb v (t + lease_ttl) ≡ true = ground arith in
        a.1 (dedup_key event_id) v le ∙ rw (own, inside) refl,
  )
  set_nx-ClaimAnswers law event_id t u meanwhile s (answered false, s1) a =
      by_get (redis.get (dedup_key event_id) u (meanwhile s1))
        (law.get_answers (dedup_key event_id) u (meanwhile s1))
    where
      by_get :
          (g : Answer (Option String) × S)
          → GetAnswers redis (dedup_key event_id) u (meanwhile s1) g
          → ClaimAnswers event_id t u s s1 (meanwhile s1) (claim_of_value g.0, g.1)
      by_get (answered o, s') k = value-ClaimAnswers event_id t u s s1 (meanwhile s1) s' o a k.0 k.1
      by_get (failed, s') k = tt
  set_nx-ClaimAnswers law event_id t u meanwhile s (failed, s1) a = tt

  -- Over a Redis that keeps its laws, whatever happens between the two commands of a claim: one that
  -- acquires found no value under the event's key at its `SetNX`, and leaves one there for 30 seconds;
  -- one that answers done found at its `Get` that the event is done, and one that answers busy that
  -- it is not, also where the value has gone by then, and both were refused at the `SetNX`: there was
  -- a value, which it left, or it met the value that it had set itself; the `Get` changes none;
  -- no claim answers unknown without an error.
  pub claim-ClaimAnswers :
      IsRedis redis
      → (event_id : String) (t u : ℕ) (meanwhile : S → S) (s : S)
      → let s1 = (redis.set_nx (dedup_key event_id) state_processing lease_ttl t s).1 in
        ClaimAnswers event_id t u s s1 (meanwhile s1) (claim redis event_id t u meanwhile s)
  unfolding claim
  claim-ClaimAnswers law event_id t u meanwhile s =
      set_nx-ClaimAnswers law event_id t u meanwhile s _ (law.set_nx_answers _ _ _ t s)

  -- A value that is there at the `SetNX` is there after it.
  Refused-value :
      (event_id : String) (t u : ℕ) (s s1 : S)
      → redis.value (dedup_key event_id) t s ≢ none
      → Refused event_id t s s1
      → redis.value (dedup_key event_id) u s1 ≡ redis.value (dedup_key event_id) u s
  Refused-value event_id t u s s1 there (inl held) = held.1 (dedup_key event_id) u
  Refused-value event_id t u s s1 there (inr own) = absurd (there own.0)

  done_within :
      (event_id : String) (t u : ℕ) (s s1 s2 : S) (o : Answer ClaimResult × S) {r : ClaimResult}
      → redis.value (dedup_key event_id) t s ≡ some state_done
      → redis.value (dedup_key event_id) u s ≡ some state_done
      → redis.value (dedup_key event_id) u s2 ≡ redis.value (dedup_key event_id) u s1
      → ClaimAnswers event_id t u s s1 s2 o
      → o.0 ≡ answered r
      → r ≡ done
  done_within event_id t u s s1 s2 (answered acquired, s') is still kept a e =
      absurd (cc (sym is ∙ a.0))
  done_within event_id t u s s1 s2 (answered done, s') is still kept a e = cc
  done_within event_id t u s s1 s2 (answered busy, s') is still kept a e =
      absurd
        (a.1 (kept ∙ Refused-value event_id t u s s1 (λ empty. cc (sym is ∙ empty)) a.0 ∙ still))
  done_within event_id t u s s1 s2 (answered unknown, s') is still kept a e = absurd a
  done_within event_id t u s s1 s2 (failed, s') is still kept a e = absurd (cc)

  -- Over a Redis that keeps its laws, once an event is marked as done, a claim that is answered, whose
  -- commands both come within the next 24 hours, answers done, if no command comes between the mark
  -- and the claim, and what happens between the claim's own commands leaves the event's key as it is.
  pub claim-mark_done :
      IsRedis redis
      → (event_id : String) (now t u : ℕ) (meanwhile : S → S) (s s' : S) (r : ClaimResult)
      → mark_done redis event_id now s ≡ (answered tt, s')
      → now ≤ t
      → t ≤ u
      → u < now + done_ttl
      → ((x : S) (v : ℕ)
          → redis.value (dedup_key event_id) v (meanwhile x) ≡ redis.value (dedup_key event_id) v x)
      → (claim redis event_id t u meanwhile s').0 ≡ answered r
      → r ≡ done
  unfolding mark_done
  claim-mark_done law event_id now t u meanwhile s s' r marked from to lt kept e =
      let stored =
        subst (SetAnswers redis (dedup_key event_id) state_done done_ttl now s) marked
          (law.set_answers (dedup_key event_id) state_done done_ttl now s) in
      let own : str_eq (dedup_key event_id) (dedup_key event_id) ≡ true = (eq_iff _ _).1 refl in
      let first_inside : ltb t (now + done_ttl) ≡ true = ground arith in
      let inside : ltb u (now + done_ttl) ≡ true = ground arith in
      done_within event_id t u s' _ _ (claim redis event_id t u meanwhile s')
        (stored (dedup_key event_id) t from ∙ rw (own, first_inside) refl)
        (stored (dedup_key event_id) u (omega (arith, from, to)) ∙ rw (own, inside) refl)
        (kept (redis.set_nx (dedup_key event_id) state_processing lease_ttl t s').1 u)
        (claim-ClaimAnswers law event_id t u meanwhile s') e
