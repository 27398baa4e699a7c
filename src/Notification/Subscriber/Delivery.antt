-- ===== src/Notification/Subscriber/Delivery.antt =====
-- Which messages the subscriber sends, and the way of a notification to the queue of a client.
use equilibra.Common.{
  ℕ, suc, ◌<◌, ◌≡◌, refl, ap, ◌∙◌, Bool, true, false, Option, none, some, List, [], ◌∷◌, ◌++◌,
  length, map, arith, String,
}
use equilibra.Common.Int.{ℤ}
use equilibra.Events.{EntryPosted}
use equilibra.Events.Document.{Json}
use equilibra.Notification.Message.{notification, envelope}
use equilibra.Notification.Hub.{Hub, send, capacity}
use equilibra.Notification.Hub.Registered.{registered}
use equilibra.Notification.Hub.Invariant.{IsHub}
use equilibra.Notification.Hub.Sending.{send-heap}
use equilibra.Notification.Subscriber.{
  Signal, cancelled, closed, payload, goes_on, ended, failed, Sender, forward, listen,
  run_subscriber,
}

module _ {W : Type 0} (sender : Sender W) (unmarshal : Json → Option (ℤ × Json)) where
  abbrev with_message : Option (ℤ × Json) → List (ℤ × Json) → List (ℤ × Json)
  with_message none rest = rest
  with_message (some m) rest = m ∷ rest

  -- The messages that can be read, with their accounts.
  abbrev pub readable : List Json → List (ℤ × Json)
  readable [] = []
  readable (m ∷ ms) = with_message (unmarshal m) (readable ms)

  abbrev pub send_all : List (ℤ × Json) → W → W
  send_all [] w = w
  send_all ((account_id, message) ∷ ms) w = send_all ms (sender account_id message w)

  listen-append :
      (ms : List Json) (signals : List Signal) (w : W)
      → listen sender unmarshal (map payload ms ++ signals) w
        ≡ listen sender unmarshal signals (send_all (readable ms) w)
  unfolding listen
  listen-append [] signals w = refl
  listen-append (m ∷ ms) signals w =
      listen-append ms signals (forward sender unmarshal (unmarshal m) w)
      ∙ ap (listen sender unmarshal signals) (one_more (unmarshal m))
    where
      one_more :
          (o : Option (ℤ × Json))
          → send_all (readable ms) (forward sender unmarshal o w)
            ≡ send_all (with_message o (readable ms)) w
      one_more none = refl
      one_more (some m) = refl

  -- Whatever payloads come, once the subscription is confirmed: the readable ones are sent to their
  -- accounts in the order in which they came, the malformed ones are skipped, and the subscriber
  -- goes on; a cancelled context then ends it without an error, a closed channel with one, and
  -- nothing further is sent.
  pub run_subscriber-append :
      (cancels : Bool) (ms : List Json) (later : List Signal) (w : W)
      → let w' = send_all (readable ms) w in
        let after = λ (signals : List Signal).
          run_subscriber sender unmarshal true cancels (map payload ms ++ signals) w in
        (after [] ≡ (goes_on, w'))
        × (after (cancelled ∷ later) ≡ (ended, w'))
        × (after (closed ∷ later) ≡ (failed, w'))
  unfolding run_subscriber listen
  run_subscriber-append cancels ms later w = (
    listen-append ms [] w,
    listen-append ms (cancelled ∷ later) w,
    listen-append ms (closed ∷ later) w,
  )

-- The hub as the sender, with what the choices of `Send` are for this message and the later ones.
abbrev pub hub_sender : Sender (Hub × (ℕ → ℕ → Bool))
hub_sender account_id message (h, choices) =
    (send account_id message (choices 0) h, λ n. choices (suc n))

-- In a hub as the operations make it, an entry's notification that comes over the channel gets
-- to every client of the entry's account that is connected and has room: it stands last
-- in the client's queue. The hypothesis on the decoder is that it reads back an envelope.
pub listen-heap :
    (unmarshal : Json → Option (ℤ × Json))
    → ((account_id : ℤ) (m : Json) → unmarshal (envelope account_id m) ≡ some (account_id, m))
    → (event_id : String) (e : EntryPosted) (h : Hub) (choices : ℕ → ℕ → Bool) (c : ℕ) → IsHub h
    → registered e.account_id c h ≡ true
    → (h.heap c).done ≡ false
    → length (h.heap c).send < capacity
    → let m = notification event_id e in
      ((listen hub_sender unmarshal (payload (envelope e.account_id m) ∷ []) (h, choices)).1.0.heap
        c).send
      ≡ (h.heap c).send ++ m ∷ []
unfolding listen
listen-heap unmarshal reads event_id e h choices c v is_ours alive room =
    let m = notification event_id e in
    ap (λ o. ((forward hub_sender unmarshal o (h, choices)).0.heap c).send) (reads e.account_id m)
    ∙ ap (λ o. o.send) (send-heap e.account_id m (choices 0) c h v)
    ∙ ground (arith, is_ours, alive, room)
