-- ===== src/Notification/Subscriber.antt =====
-- internal/notification/pubsub.go: `Subscriber.Run` over its interface `Sender`, with the state that
-- the sender works on. What the subscription answers and brings is a list of signals;
-- `json.Unmarshal` into an `envelope` is the parameter `unmarshal`.
pub mod Delivery
mod Tests
use equilibra.Common.{Bool, true, false, Option, none, some, List, [], ◌∷◌, if◌then◌else◌}
use equilibra.Common.Int.{ℤ}
use equilibra.Events.Document.{Json}

-- What the `select` finds: the context is cancelled, the channel is closed, or a payload comes.
pub data Signal : Type 0 where
  cancelled closed : Signal
  payload : Json → Signal

-- `Run` goes on, has returned nil, or has returned an error.
pub data Running : Type 0 where
  goes_on ended failed : Running

abbrev pub Sender : Type 0 → Type 0
Sender W = ℤ → Json → W → W

module _ {W : Type 0} (sender : Sender W) (unmarshal : Json → Option (ℤ × Json)) where
  -- A malformed message is skipped.
  abbrev pub forward : Option (ℤ × Json) → W → W
  forward none w = w
  forward (some (account_id, message)) w = sender account_id message w

  unfoldable pub listen : List Signal → W → Running × W
  listen [] w = (goes_on, w)
  listen (cancelled ∷ signals) w = (ended, w)
  listen (closed ∷ signals) w = (failed, w)
  listen (payload m ∷ signals) w = listen signals (forward (unmarshal m) w)

  -- `Receive` confirms the subscription or fails, the context being cancelled or not.
  unfoldable pub run_subscriber : Bool → Bool → List Signal → W → Running × W
  run_subscriber confirmed cancels signals w =
      let rest = listen signals w in
      if confirmed then rest else (if cancels then ended else failed, w)
