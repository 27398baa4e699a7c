-- ===== src/Notification/Processor/System.antt =====
-- Any number of processors, interleaved in any order, over one Redis. A call may begin, be
-- cancelled or die anywhere, and time passes.
use equilibra.Common.{ℕ, ◌+◌, String, Option, List, [], ◌∷◌, ◌==◌, if◌then◌else◌}
use equilibra.Events.{EntryPosted}
use equilibra.Events.Document.{Json}
use equilibra.Notification.Redis.{Redis}
use equilibra.Notification.Processor.{Pc, idle, handle_start, advance, cancel}

pub record System (S : Type 0) : Type 0 where
  pub now : ℕ
  pub redis : S
  pub pc : ℕ → Pc

abbrev pub set_pc : ℕ → Pc → (ℕ → Pc) → ℕ → Pc
set_pc i p pc j = if i == j then p else pc j

pub data Event : Type 0 where
  begins : ℕ → String → Event  -- a processor gets the record of an event
  advances : ℕ → Event
  cancels : ℕ → Event
  dies : ℕ → Event
  passes : ℕ → Event

-- The Redis that all share, the JSON decoder, and the payload that each event id stands for.
pub record Setting (S : Type 0) : Type 0 where
  pub redis : Redis S
  pub unmarshal : Json → Option EntryPosted
  pub payload_of : String → Json

module _ {S : Type 0} (e : Setting S) where
  open e use {redis, unmarshal, payload_of}

  unfoldable pub happen : Event → System S → System S
  happen (begins i event_id) st = record st {
    pc = set_pc i (handle_start event_id (payload_of event_id)) st.pc;
  }
  happen (advances i) st =
      let (p, s) = advance redis unmarshal (st.pc i) st.now st.redis in
      record st { redis = s; pc = set_pc i p st.pc }
  happen (cancels i) st = record st { pc = set_pc i (cancel (st.pc i)) st.pc }
  happen (dies i) st = record st { pc = set_pc i idle st.pc }
  happen (passes d) st = record st { now = st.now + d }

  unfoldable pub happens : List Event → System S → System S
  unfolding happen
  happens [] st = st
  happens (x ∷ xs) st = happens xs (happen x st)
