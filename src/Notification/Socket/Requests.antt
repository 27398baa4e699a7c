-- ===== src/Notification/Socket/Requests.antt =====
-- What a request for the notifications of an account comes to.
use equilibra.Common.{
  some_injective, subst, String, ◌≡◌, refl, Bool, true, false, Option, none, some, List,
  if◌then◌else◌,
}
use equilibra.Common.Int.{ℤ, pos, leb_ℤ}
use equilibra.Notification.Hub.{Hub}
use equilibra.Notification.Hub.Invariant.{IsHub}
use equilibra.Notification.Socket.{
  Signal, Served, bad_request, not_accepted, served, serve_account, serve_parsed, serve_http,
}
use equilibra.Notification.Socket.Registration.{Serving, loop-connect-Serving}

-- What a request has come to, for what its text stands for and whether the upgrade succeeds.
abbrev pub IsServed : Bool → Option ℤ → Hub → Served → Type 0
IsServed accepts o h (bad_request h') = (h' ≡ h) × ((a : ℤ) → o ≡ some a → leb_ℤ a (pos 0) ≡ true)
IsServed accepts o h (not_accepted h') =
    (h' ≡ h) × (accepts ≡ false) × ((a : ℤ) × (o ≡ some a) × (leb_ℤ a (pos 0) ≡ false))
IsServed accepts o h (served k) =
    (accepts ≡ true) × ((a : ℤ) × (o ≡ some a) × (leb_ℤ a (pos 0) ≡ false) × Serving a k)

-- In a hub as the operations make it, for every request, whether the upgrade succeeds or not, and
-- whatever the handler meets: a request is refused as bad just when its text is no positive account
-- id, and then leaves the hub as it was; of the others, one whose upgrade fails is not accepted and
-- leaves the hub as it was, and one whose upgrade succeeds is served for the account that the text
-- stands for: the hub stays as the operations make it, once the handler has returned its client
-- is in no set of the account any more and is disconnected, and a connection that was closed with a
-- reason was closed with the reason of its client's first disconnection, which stays.
pub serve_http-IsServed :
    (parse_int : String → Option ℤ) (accepts : Bool) (text : String) (signals : List Signal)
    (h : Hub)
    → IsHub h
    → IsServed accepts (parse_int text) h (serve_http parse_int accepts text signals h)
unfolding serve_http
serve_http-IsServed parse_int accepts text signals h v = by_parsed accepts (parse_int text)
  where
    by_sign :
        (accepts small : Bool) (a : ℤ)
        → leb_ℤ a (pos 0) ≡ small
        → IsServed accepts
            (some a)
            h
            (if small then bad_request h else serve_account accepts signals h a)
    by_sign accepts true a e =
        (refl, λ b k. subst (λ x. leb_ℤ x (pos 0) ≡ true) (some_injective k) e)
    by_sign true false a e = (refl, (a, refl, e, loop-connect-Serving a signals h v))
    by_sign false false a e = (refl, refl, (a, refl, e))

    by_parsed :
        (accepts : Bool) (o : Option ℤ) → IsServed accepts o h (serve_parsed accepts signals h o)
    by_parsed accepts none = (refl, λ a e. absurd (cc))
    by_parsed accepts (some a) = by_sign accepts (leb_ℤ a (pos 0)) a refl
