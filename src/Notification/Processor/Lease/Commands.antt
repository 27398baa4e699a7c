-- ===== src/Notification/Processor/Lease/Commands.antt =====
-- What each command of a call does to the reservations.
use equilibra.Common.{
  ℕ, ◌≡◌, refl, sym, subst, ◌∙◌, ◌⊎◌, inl, inr, String, Bool, true, false, Option, none, some,
  str_eq, eq_iff, arith, if◌then◌else◌,
}
use equilibra.Events.{EntryPosted}
use equilibra.Events.Document.{Json}
use equilibra.Notification.Redis.{
  IsRedis, Answer, answered, failed, SameValues, Stored, SetNxAnswers, GetAnswers, SetAnswers,
}
use equilibra.Notification.Dedup.{
  dedup_key, state_done, state_processing, lease_ttl, done_ttl, mark_done, claim_of_value, done,
  busy,
}
use equilibra.Notification.Processor.{
  Pc, idle, claiming, probing, waiting, publishing, marking, returned, after_probe, claimed,
  after_publish, after_done, after_claim, advance,
}
use equilibra.Notification.Processor.System.{Setting}
use equilibra.Notification.Processor.Lease.{
  reserved, Covered, Leases, SameValues-Covered, Stored-Covered, Covered-Stored,
}

module _ {S : Type 0} (w : Setting S) where
  open w use {redis, unmarshal, payload_of}

  claimed-fresh :
      (event_id : String) (now : ℕ) (o : Option EntryPosted) (s s' : S) (j : String) (since : ℕ)
      → redis.value (dedup_key event_id) now s ≡ none
      → Stored redis (dedup_key event_id) state_processing lease_ttl now s s'
      → reserved (claimed event_id now o) ≡ some (j, since)
      → (since ≡ now) × (redis.value (dedup_key j) now s ≡ none) × Covered w j now now s'
  claimed-fresh event_id now o s s' j since free stored e =
      let is : ◌≡◌ {A = Option (String × ℕ)} (some (event_id, now)) (some (j, since)) =
        sym (reserved-claimed o) ∙ e in
      let same : event_id ≡ j = cc in
      (
        cc,
        subst (λ x. redis.value (dedup_key x) now s ≡ none) same free,
        subst (λ x. Covered w x now now s') same
            (Stored-Covered w (dedup_key event_id) state_processing lease_ttl event_id now now s s'
              stored (omega arith) (omega arith) (inl ((eq_iff _ _).1 refl))),
      )
    where
      reserved-claimed :
          (x : Option EntryPosted) → reserved (claimed event_id now x) ≡ some (event_id, now)
      reserved-claimed none = refl
      reserved-claimed (some x) = refl

  claim-Leases :
      (event_id : String) (payload : Json) (now : ℕ) (s : S) (r : Answer Bool × S)
      → SetNxAnswers redis (dedup_key event_id) state_processing lease_ttl now s r
      → Leases w now s
          (claiming event_id payload)
          (after_claim redis unmarshal event_id payload now r.0)
          r.1
  claim-Leases event_id payload now s (answered true, s') a = record {
    keeps = Covered-Stored w _ state_processing lease_ttl now s s' a.1 (omega arith);
    fresh =
        λ j since e. inr (claimed-fresh event_id now (unmarshal payload) s s' j since a.0 a.1 e);
  }
  claim-Leases event_id payload now s (answered false, s') (inl held) = record {
    keeps = λ j since le k. SameValues-Covered w j since now s s' held.1 k;
    fresh = λ j since e. absurd (cc);
  }
  claim-Leases event_id payload now s (answered false, s') (inr applied) = record {
    keeps = Covered-Stored w _ state_processing lease_ttl now s s' applied.1 (omega arith);
    fresh = λ j since e. absurd (cc);
  }
  claim-Leases event_id payload now s (failed, s') (inl same) = record {
    keeps = λ j since le k. SameValues-Covered w j since now s s' same k;
    fresh = λ j since e. absurd (cc);
  }
  claim-Leases event_id payload now s (failed, s') (inr applied) = record {
    keeps = Covered-Stored w _ state_processing lease_ttl now s s' applied.1 (omega arith);
    fresh = λ j since e. absurd (cc);
  }

  reserved-probe :
      (event_id : String) (payload : Json) (a : Answer (Option String))
      → reserved (after_probe event_id payload (claim_of_value a)) ≡ none
  reserved-probe event_id payload (answered none) = refl
  reserved-probe event_id payload (answered (some v)) = by_test (str_eq v state_done)
    where
      by_test :
          (b : Bool)
          → reserved (after_probe event_id payload (answered (if b then done else busy))) ≡ none
      by_test true = refl
      by_test false = refl
  reserved-probe event_id payload failed = refl

  SameValues-Leases :
      (now : ℕ) (s s' : S) (p p' : Pc)
      → SameValues redis s s'
      → (reserved p' ≡ none) ⊎ (reserved p' ≡ reserved p)
      → Leases w now s p p' s'
  SameValues-Leases now s s' p p' same kept = record {
    keeps = λ j since le k. SameValues-Covered w j since now s s' same k;
    fresh = λ j since e. elim kept [
      | inl dropped ↦ absurd (cc (sym dropped ∙ e))
      | inr is ↦ inl (sym is ∙ e)
    ];
  }

  probe-Leases :
      (event_id : String) (payload : Json) (now : ℕ) (s : S) (r : Answer (Option String) × S)
      → GetAnswers redis (dedup_key event_id) now s r
      → Leases w now s
          (probing event_id payload)
          (after_probe event_id payload (claim_of_value r.0))
          r.1
  probe-Leases event_id payload now s (answered o, s') a =
      SameValues-Leases now s s' _ _ a.1 (inl (reserved-probe event_id payload (answered o)))
  probe-Leases event_id payload now s (failed, s') a = SameValues-Leases now s s' _ _ a (inl refl)

  publish-Leases :
      (event_id : String) (x : EntryPosted) (since now : ℕ) (s s' : S) (a : Answer (Unit {0}))
      → SameValues redis s s'
      → Leases w now s (publishing event_id x since) (after_publish event_id since a) s'
  publish-Leases event_id x since now s s' (answered ok) same =
      SameValues-Leases now s s' _ _ same (inr refl)
  publish-Leases event_id x since now s s' failed same =
      SameValues-Leases now s s' _ _ same (inl refl)

  reserved-done :
      (event_id : String) (published : Bool) (a : Answer (Unit {0}))
      → reserved (after_done event_id published a) ≡ none
  reserved-done event_id published (answered ok) = refl
  reserved-done event_id true failed = refl
  reserved-done event_id false failed = refl

  mark-Leases :
      (event_id : String) (published : Bool) (since now : ℕ) (s : S) (r : Answer (Unit {0}) × S)
      → SetAnswers redis (dedup_key event_id) state_done done_ttl now s r
      → Leases w now s (marking event_id published since) (after_done event_id published r.0) r.1
  mark-Leases event_id published since now s (answered ok, s') a = record {
    keeps = Covered-Stored w _ state_done done_ttl now s s' a (omega arith);
    fresh = λ j t e. absurd (cc);
  }
  mark-Leases event_id published since now s (failed, s') (inl same) =
      SameValues-Leases now s s' _ _ same (inl (reserved-done event_id published failed))
  mark-Leases event_id published since now s (failed, s') (inr stored) = record {
    keeps = Covered-Stored w _ state_done done_ttl now s s' stored (omega arith);
    fresh = λ j t e. absurd (cc (sym (reserved-done event_id published failed) ∙ e));
  }

  pub advance-Leases :
      IsRedis redis
      → (p : Pc) (now : ℕ) (s : S)
      → Leases w now s p (advance redis unmarshal p now s).0 (advance redis unmarshal p now s).1
  unfolding advance mark_done
  advance-Leases law (claiming event_id payload) now s =
      claim-Leases event_id payload now s _ (law.set_nx_answers _ _ _ now s)
  advance-Leases law (probing event_id payload) now s =
      probe-Leases event_id payload now s _ (law.get_answers _ now s)
  advance-Leases law (waiting event_id payload) now s =
      SameValues-Leases now s s _ _ (λ j u. refl) (inl refl)
  advance-Leases law (publishing event_id x since) now s =
      publish-Leases event_id x since now s _ _ (law.publish-values _ _ s)
  advance-Leases law (marking event_id published since) now s =
      mark-Leases event_id published since now s _ (law.set_answers _ _ _ now s)
  advance-Leases law idle now s = SameValues-Leases now s s _ _ (λ j u. refl) (inl refl)
  advance-Leases law (returned event_id h) now s =
      SameValues-Leases now s s _ _ (λ j u. refl) (inl refl)
