-- ===== src/Notification/Processor/Told.antt =====
-- An event is marked as done, and its record finished, only once its notification is published:
-- the invariant, and what keeps it.
pub mod Commands
pub mod Events
use equilibra.Common.{
  ℕ, ◌+◌, ◌≤◌, ◌≡◌, ◌≢◌, refl, sym, subst, ap, ◌∙◌, ◌⊎◌, inl, inr, String, Bool, true, false,
  Option, none, some, List, [], ◌∷◌, ◌++◌, ltb, ◌==◌, str_eq, eq_iff, Bool-cases, arith,
  if◌then◌else◌,
}
use equilibra.Common.Strings.{append_cancel}
use mathlib.Core.List.{Memᴰ}
use mathlib.Core.List.Memᴰ
use equilibra.Events.{EntryPosted}
use equilibra.Events.Document.{Json}
use equilibra.Notification.Message.{notification, envelope, notifications_channel}
use equilibra.Notification.Redis.{
  Redis, IsRedis, Answer, answered, failed, SameValues, Stored, SetNxAnswers, GetAnswers,
  SetAnswers, PublishAnswers,
}
use equilibra.Notification.Dedup.{
  dedup_key, key_prefix, state_done, state_processing, lease_ttl, done_ttl, mark_done,
  claim_of_value, ClaimResult, acquired, done, busy, unknown,
}
use equilibra.Notification.Processor.{
  Pc, idle, claiming, probing, waiting, publishing, marking, returned, Handled, finished, retry,
  Failure, handle_start, after_probe, claimed, after_publish, after_done, after_claim, cancel,
  advance,
}
use equilibra.Notification.Processor.System.{Setting, System, set_pc, Event, happen, happens}

abbrev has_done : Option String → Bool
has_done none = false
has_done (some v) = str_eq v state_done

processing-ne-done : some state_processing ≢ some state_done
processing-ne-done e = cc (ap has_done e)

-- Two events have different keys.
same_event : (a b : String) → str_eq (dedup_key a) (dedup_key b) ≡ true → a ≡ b
unfolding dedup_key
same_event a b h = append_cancel key_prefix a b ((eq_iff (dedup_key a) (dedup_key b)).0 h)

module _ {S : Type 0} (e : Setting S) where
  open e use {redis, unmarshal, payload_of}

  -- The notification of the event is in the channel, with the account that the payload names.
  pub record Announced (event_id : String) (s : S) : Type 0 where
    pub entry : EntryPosted
    pub read : unmarshal (payload_of event_id) ≡ some entry
    pub sent :
        Memᴰ
          (notifications_channel, envelope entry.account_id (notification event_id entry))
          (redis.log s)

  -- Announced, or its payload is malformed.
  abbrev pub Settled : String → S → Type 0
  Settled event_id s = Announced event_id s ⊎ (unmarshal (payload_of event_id) ≡ none)

  -- What the live variables of a call say.
  abbrev pub Tells : Pc → S → Type 0
  Tells idle s = Unit
  Tells (claiming event_id payload) s = payload ≡ payload_of event_id
  Tells (probing event_id payload) s = payload ≡ payload_of event_id
  Tells (waiting event_id payload) s = payload ≡ payload_of event_id
  Tells (publishing event_id e since) s = unmarshal (payload_of event_id) ≡ some e
  Tells (marking event_id published since) s = Settled event_id s
  Tells (returned event_id finished) s = (event_id ≡ "") ⊎ Settled event_id s
  Tells (returned event_id (retry f)) s = Unit

  abbrev pub DoneIsSettled : ℕ → S → Type 0
  DoneIsSettled now s =
      (event_id : String) (u : ℕ)
      → now ≤ u
      → redis.value (dedup_key event_id) u s ≡ some state_done
      → Settled event_id s

  pub record IsTold (st : System S) : Type 0 where
    pub done_settled : DoneIsSettled st.now st.redis
    pub tells : (i : ℕ) → Tells (st.pc i) st.redis

  -- The channel's log only grows.
  abbrev pub Grows : S → S → Type 0
  Grows s s' = (m : String × Json) → Memᴰ m (redis.log s) → Memᴰ m (redis.log s')

  pub Settled-Grows :
      (event_id : String) (s s' : S) → Grows s s' → Settled event_id s → Settled event_id s'
  Settled-Grows event_id s s' g (inl a) =
      inl (record { entry = a.entry; read = a.read; sent = g _ a.sent })
  Settled-Grows event_id s s' g (inr m) = inr m

  pub Tells-Grows : (p : Pc) (s s' : S) → Grows s s' → Tells p s → Tells p s'
  Tells-Grows idle s s' g t = tt
  Tells-Grows (claiming event_id payload) s s' g t = t
  Tells-Grows (probing event_id payload) s s' g t = t
  Tells-Grows (waiting event_id payload) s s' g t = t
  Tells-Grows (publishing event_id e since) s s' g t = t
  Tells-Grows (marking event_id published since) s s' g t = Settled-Grows event_id s s' g t
  Tells-Grows (returned event_id finished) s s' g (inl none_given) = inl none_given
  Tells-Grows (returned event_id finished) s s' g (inr k) = inr (Settled-Grows event_id s s' g k)
  Tells-Grows (returned event_id (retry f)) s s' g t = tt

  pub Grows-same : (s s' : S) → redis.log s' ≡ redis.log s → Grows s s'
  Grows-same s s' e m k = subst (Memᴰ m) (sym e) k

  pub Grows-append :
      (s s' : S) (xs : List (String × Json)) → redis.log s' ≡ redis.log s ++ xs → Grows s s'
  Grows-append s s' xs e m k = subst (Memᴰ m) (sym e) (Memᴰ.append_left xs k)

  -- What one command does for the invariant.
  pub record Steps (now : ℕ) (s : S) (p : Pc) (s' : S) : Type 0 where
    pub grows : Grows s s'
    pub done_settled : DoneIsSettled now s'
    pub tells : Tells p s'

  -- A key that is done was done before, or its event is settled.
  DoneIsSettled-step :
      (now : ℕ) (s s' : S)
      → Grows s s'
      → ((event_id : String) (u : ℕ)
          → now ≤ u
          → redis.value (dedup_key event_id) u s' ≡ some state_done
          → (redis.value (dedup_key event_id) u s ≡ some state_done) ⊎ Settled event_id s)
      → DoneIsSettled now s
      → DoneIsSettled now s'
  DoneIsSettled-step now s s' g h k event_id u le e = elim (h event_id u le e) [
    | inl before ↦ Settled-Grows event_id s s' g (k event_id u le before)
    | inr settled ↦ Settled-Grows event_id s s' g settled
  ]

  pub SameValues-done :
      (now : ℕ) (s s' : S)
      → SameValues redis s s'
      → Grows s s'
      → DoneIsSettled now s
      → DoneIsSettled now s'
  SameValues-done now s s' same g k =
      DoneIsSettled-step now s s' g (λ event_id u le e. inl (sym (same _ u) ∙ e)) k

  pub Stored-processing :
      (key : String) (now : ℕ) (s s' : S)
      → Stored redis key state_processing lease_ttl now s s'
      → Grows s s'
      → DoneIsSettled now s
      → DoneIsSettled now s'
  Stored-processing key now s s' stored g k =
      DoneIsSettled-step now s s' g
        (λ event_id u le e.
          let is = sym (stored (dedup_key event_id) u le) ∙ e in
          inl (processing_left (str_eq key (dedup_key event_id)) (ltb u (now + lease_ttl)) is))
        k
    where
      processing_left :
          (b c : Bool) {o : Option String}
          → (if b then (if c then some state_processing else none) else o) ≡ some state_done
          → o ≡ some state_done
      processing_left true true e = absurd (processing-ne-done e)
      processing_left true false e = cc
      processing_left false c e = e

  pub Stored-done :
      (event_id : String) (now : ℕ) (s s' : S)
      → Stored redis (dedup_key event_id) state_done done_ttl now s s'
      → Grows s s'
      → Settled event_id s
      → DoneIsSettled now s
      → DoneIsSettled now s'
  Stored-done event_id now s s' stored g settled k =
      DoneIsSettled-step now s s' g
        (λ j u le e. elim (Bool-cases (str_eq (dedup_key event_id) (dedup_key j))) [
          | inl is ↦ inr (subst (λ x. Settled x s) (same_event event_id j is) settled)
          | inr other ↦ inl (rw other at (sym (stored (dedup_key j) u le) ∙ e))
        ])
        k
