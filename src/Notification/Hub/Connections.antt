-- ===== src/Notification/Hub/Connections.antt =====
-- The gauge of connections counts the clients in the sets.
use equilibra.Common.{
  ℕ, ◌+◌, ◌≡◌, refl, not, List, [], ◌∷◌, ◌++◌, length, length-append, select, exists, ◌==◌, arith,
  if◌then◌else◌,
}
use equilibra.Common.Int.{ℤ}
use equilibra.Notification.Hub.{
  Hub, Status, count, connections, register, unregister, with_set, without_client, without_empty,
}
use equilibra.Notification.Hub.Table.{ClientSets, members, put, delete, members-absent}
use equilibra.Notification.Hub.Registered.{contains, registered, NoRepeat}
use equilibra.Notification.Hub.Invariant.{IsHub}

count-put :
    (a : ℤ) (s : List ℕ) (m : ClientSets)
    → count (put a s m) + length (members a m) ≡ count m + length s
unfolding count put members
count-put a s [] = omega arith
count-put a s ((c, t) ∷ m) = ground (arith, count-put a s m)

count-delete : (a : ℤ) (m : ClientSets) → count (delete a m) + length (members a m) ≡ count m
unfolding count delete members
count-delete a [] = refl
count-delete a ((c, t) ∷ m) = ground (arith, count-delete a m)

-- Taking a client out of a set makes it smaller by one, if it is there.
length-select :
    (c : ℕ) (s : List ℕ)
    → NoRepeat s
    → length (select (λ d. not (d == c)) s) + (if contains c s then 1 else 0) ≡ length s
unfolding select exists
length-select c [] k = refl
length-select c (x ∷ s) k = ground (arith, length-select c s k.1, k.0)

count-with_set : (a : ℤ) (m : ClientSets) → count (with_set a m) ≡ count m
count-with_set a m = ground (arith, count-put a [] m, members-absent a m)

count-without_client :
    (a : ℤ) (c : ℕ) (m : ClientSets)
    → NoRepeat (members a m)
    → count (without_client a c m) + (if contains c (members a m) then 1 else 0) ≡ count m
unfolding exists
count-without_client a c m k = ground (
  arith,
  count-put a (select (λ (d : ℕ). not (d == c)) (members a m)) m,
  length-select c (members a m) k,
  members-absent a m,
)

count-without_empty : (a : ℤ) (m : ClientSets) → count (without_empty a m) ≡ count m
count-without_empty a m = ground (arith, count-delete a m)

-- In a hub as the operations make it, a registration adds one to the number of connections; an
-- unregistration takes one away if the client is in the account's set, and none if it is not.
pub connections-register :
    (a : ℤ) (r : Status) (c : ℕ) (h : Hub)
    → IsHub h
    → (connections (register a h).1 ≡ connections h + 1)
      × (connections (unregister a r c h) + (if registered a c h then 1 else 0) ≡ connections h)
unfolding connections register unregister
connections-register a r c h v =
    let m = with_set a h.clients in
    let s = members a m ++ h.next ∷ [] in
    (
      omega (
        arith,
        count-put a s m,
        count-with_set a h.clients,
        length-append (members a m) (h.next ∷ []),
      ),
      rw (count-without_empty a (without_client a c h.clients))
          (count-without_client a c h.clients (v.once a)),
    )
