-- ===== src/Notification/Processor/Told/Commands.antt =====
-- Each command of a call keeps the invariant.
use equilibra.Common.{
  suc, ℕ, ◌≡◌, refl, sym, subst, ap, ◌∙◌, inl, inr, String, Bool, true, false, Option, none, some,
  str_eq, eq_iff, arith, if◌then◌else◌,
}
use mathlib.Core.List.{Memᴰ}
use mathlib.Core.List.Memᴰ
use equilibra.Events.{EntryPosted}
use equilibra.Events.Document.{Json}
use equilibra.Notification.Message.{notification, envelope, notifications_channel}
use equilibra.Notification.Redis.{
  IsRedis, Answer, answered, failed, SameValues, SetNxAnswers, GetAnswers, SetAnswers,
  PublishAnswers, copies,
}
use equilibra.Notification.Dedup.{
  dedup_key, state_done, state_processing, lease_ttl, done_ttl, mark_done, claim_of_value, done,
  busy,
}
use equilibra.Notification.Processor.{
  Pc, idle, claiming, probing, waiting, publishing, marking, returned, after_probe, claimed,
  after_publish, after_done, after_claim, advance,
}
use equilibra.Notification.Processor.System.{Setting}
use equilibra.Notification.Processor.Told.{
  Settled, Tells, DoneIsSettled, Grows, Grows-same, Grows-append, Steps, SameValues-done,
  Stored-processing, Stored-done, Settled-Grows, Settled-Grows,
}

module _ {S : Type 0} (w : Setting S) where
  open w use {redis, unmarshal, payload_of}

  claimed-Tells :
      (event_id : String) (now : ℕ) (o : Option EntryPosted) (s : S)
      → unmarshal (payload_of event_id) ≡ o
      → Tells w (claimed event_id now o) s
  claimed-Tells event_id now none s e = inr e
  claimed-Tells event_id now (some x) s e = e

  claim-Steps :
      (event_id : String) (payload : Json) (now : ℕ) (s : S) (r : Answer Bool × S)
      → SetNxAnswers redis (dedup_key event_id) state_processing lease_ttl now s r
      → redis.log r.1 ≡ redis.log s
      → payload ≡ payload_of event_id
      → DoneIsSettled w now s
      → Steps w now s (after_claim redis unmarshal event_id payload now r.0) r.1
  claim-Steps event_id payload now s (answered true, s') a l is k = record {
    grows = Grows-same w s s' l;
    done_settled = Stored-processing w _ now s s' a.1 (Grows-same w s s' l) k;
    tells = claimed-Tells event_id now (unmarshal payload) s' (ap unmarshal (sym is));
  }
  claim-Steps event_id payload now s (answered false, s') (inl held) l is k = record {
    grows = Grows-same w s s' l;
    done_settled = SameValues-done w now s s' held.1 (Grows-same w s s' l) k;
    tells = is;
  }
  claim-Steps event_id payload now s (answered false, s') (inr applied) l is k = record {
    grows = Grows-same w s s' l;
    done_settled = Stored-processing w _ now s s' applied.1 (Grows-same w s s' l) k;
    tells = is;
  }
  claim-Steps event_id payload now s (failed, s') (inl same) l is k = record {
    grows = Grows-same w s s' l;
    done_settled = SameValues-done w now s s' same (Grows-same w s s' l) k;
    tells = tt;
  }
  claim-Steps event_id payload now s (failed, s') (inr applied) l is k = record {
    grows = Grows-same w s s' l;
    done_settled = Stored-processing w _ now s s' applied.1 (Grows-same w s s' l) k;
    tells = tt;
  }

  probe-Tells :
      (event_id : String) (payload : Json) (now : ℕ) (s s' : S) (o : Option String)
      → Grows w s s'
      → o ≡ redis.value (dedup_key event_id) now s
      → payload ≡ payload_of event_id
      → DoneIsSettled w now s
      → Tells w (after_probe event_id payload (claim_of_value (answered o))) s'
  probe-Tells event_id payload now s s' none g o is k = is
  probe-Tells event_id payload now s s' (some v) g o is k = by_value (str_eq v state_done) (λ h.
      Settled-Grows w event_id s s' g
        (k event_id now (omega arith) (sym o ∙ ap some ((eq_iff v state_done).0 h))))
    where
      by_value :
          (b : Bool)
          → (b ≡ true → Settled w event_id s')
          → Tells w (after_probe event_id payload (answered (if b then done else busy))) s'
      by_value true h = inr (h refl)
      by_value false h = is

  probe-Steps :
      (event_id : String) (payload : Json) (now : ℕ) (s : S) (r : Answer (Option String) × S)
      → GetAnswers redis (dedup_key event_id) now s r
      → redis.log r.1 ≡ redis.log s
      → payload ≡ payload_of event_id
      → DoneIsSettled w now s
      → Steps w now s (after_probe event_id payload (claim_of_value r.0)) r.1
  probe-Steps event_id payload now s (answered o, s') a l is k =
      let g = Grows-same w s s' l in
      record {
        grows = g;
        done_settled = SameValues-done w now s s' a.1 g k;
        tells = probe-Tells event_id payload now s s' o g a.0 is k;
      }
  probe-Steps event_id payload now s (failed, s') a l is k =
      let g = Grows-same w s s' l in
      record { grows = g; done_settled = SameValues-done w now s s' a g k; tells = tt }

  abbrev sent_message : String → EntryPosted → String × Json
  sent_message event_id x = (notifications_channel, envelope x.account_id (notification event_id x))

  publish-Steps :
      (event_id : String) (x : EntryPosted) (since now : ℕ) (s : S) (r : Answer (Unit {0}) × S)
      → PublishAnswers redis notifications_channel
          (envelope x.account_id (notification event_id x))
          s
          r
      → SameValues redis s r.1
      → unmarshal (payload_of event_id) ≡ some x
      → DoneIsSettled w now s
      → Steps w now s (after_publish event_id since r.0) r.1
  publish-Steps event_id x since now s (answered ok, s') (n, a) same is k =
      let g = Grows-append w s s' (copies (suc n) (sent_message event_id x)) a in
      record {
        grows = g;
        done_settled = SameValues-done w now s s' same g k;
        tells = inl (record {
          entry = x;
          read = is;
          sent =
              subst (Memᴰ (sent_message event_id x)) (sym a)
                (Memᴰ.append_right (redis.log s) (Memᴰ.head refl));
        });
      }
  publish-Steps event_id x since now s (failed, s') (n, a) same is k =
      let g = Grows-append w s s' (copies n (sent_message event_id x)) a in
      record { grows = g; done_settled = SameValues-done w now s s' same g k; tells = tt }

  done-Tells :
      (event_id : String) (published : Bool) (a : Answer (Unit {0})) (s : S)
      → Settled w event_id s
      → Tells w (after_done event_id published a) s
  done-Tells event_id published (answered ok) s k = inr k
  done-Tells event_id true failed s k = inr k
  done-Tells event_id false failed s k = tt

  mark-Steps :
      (event_id : String) (published : Bool) (now : ℕ) (s : S) (r : Answer (Unit {0}) × S)
      → SetAnswers redis (dedup_key event_id) state_done done_ttl now s r
      → redis.log r.1 ≡ redis.log s
      → Settled w event_id s
      → DoneIsSettled w now s
      → Steps w now s (after_done event_id published r.0) r.1
  mark-Steps event_id published now s (a, s') answers l settled k =
      let g = Grows-same w s s' l in
      record {
        grows = g;
        done_settled = kept a answers;
        tells = done-Tells event_id published a s' (Settled-Grows w event_id s s' g settled);
      }
    where
      kept :
          (b : Answer (Unit {0}))
          → SetAnswers redis (dedup_key event_id) state_done done_ttl now s (b, s')
          → DoneIsSettled w now s'
      kept (answered ok) stored =
          Stored-done w event_id now s s' stored (Grows-same w s s' l) settled k
      kept failed (inl same) = SameValues-done w now s s' same (Grows-same w s s' l) k
      kept failed (inr stored) =
          Stored-done w event_id now s s' stored (Grows-same w s s' l) settled k

  same-Steps : (now : ℕ) (s : S) (p : Pc) → Tells w p s → DoneIsSettled w now s → Steps w now s p s
  same-Steps now s p t k = record { grows = λ m h. h; done_settled = k; tells = t }

  -- One step of a call.
  pub advance-Steps :
      IsRedis redis
      → (p : Pc) (now : ℕ) (s : S) → Tells w p s
      → DoneIsSettled w now s
      → Steps w now s (advance redis unmarshal p now s).0 (advance redis unmarshal p now s).1
  unfolding advance mark_done
  advance-Steps law (claiming event_id payload) now s t k =
      claim-Steps event_id payload now s _ (law.set_nx_answers _ _ _ now s)
        (law.set_nx-log _ _ _ now s) t k
  advance-Steps law (probing event_id payload) now s t k =
      probe-Steps event_id payload now s _ (law.get_answers _ now s) (law.get-log _ now s) t k
  advance-Steps law (waiting event_id payload) now s t k = same-Steps now s _ t k
  advance-Steps law (publishing event_id x since) now s t k =
      publish-Steps event_id x since now s _ (law.publish_answers _ _ s) (law.publish-values _ _ s)
        t k
  advance-Steps law (marking event_id published since) now s t k =
      mark-Steps event_id published now s _ (law.set_answers _ _ _ now s) (law.set-log _ _ _ now s)
        t k
  advance-Steps law idle now s t k = same-Steps now s idle t k
  advance-Steps law (returned event_id h) now s t k = same-Steps now s (returned event_id h) t k
