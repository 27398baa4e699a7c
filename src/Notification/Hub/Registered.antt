-- ===== src/Notification/Hub/Registered.antt =====
-- Which clients each account has, after each operation: the hub as a relation between accounts and
-- clients.
use equilibra.Common.{
  ℕ, ◌<◌, ◌≡◌, refl, sym, subst, ap, ◌∙◌, Bool, true, false, ◌&&◌, ◌||◌, not, List, [], ◌∷◌, ◌++◌,
  length, select, exists, ◌==◌, arith, if◌then◌else◌,
}
use equilibra.Common.Int.{ℤ, ◌==ℤ◌, ==ℤ_iff}
use equilibra.Notification.Hub.{
  Hub, Status, register, unregister, without_client, without_empty, with_set,
}
use equilibra.Notification.Hub.Table.{
  ClientSets, members, IsMap, members-put, members-absent, members-delete, IsMap-put, IsMap-delete,
}

abbrev pub contains : ℕ → List ℕ → Bool
contains c s = exists (λ d. d == c) s

-- The client is in the account's set.
abbrev pub registered : ℤ → ℕ → Hub → Bool
registered a c h = contains c (members a h.clients)

contains-append : (c d : ℕ) (s : List ℕ) → contains c (s ++ d ∷ []) ≡ contains c s || d == c
unfolding exists
contains-append c d [] = ground arith
contains-append c d (x ∷ s) = ground (arith, contains-append c d s)

contains-select :
    (c d : ℕ) (s : List ℕ)
    → contains c (select (λ x. not (x == d)) s) ≡ contains c s && not (d == c)
unfolding exists select
contains-select c d [] = refl
contains-select c d (x ∷ s) = ground (arith, contains-select c d s)

pub members-with_set : (a b : ℤ) (m : ClientSets) → members a (with_set b m) ≡ members a m
members-with_set a b m = ground (arith, ==ℤ_iff b a, members-put a b [] m, members-absent a m)

IsMap-with_set : (b : ℤ) (m : ClientSets) → IsMap m → IsMap (with_set b m)
IsMap-with_set b m h = ground (arith, IsMap-put b [] m h)

members-without_client :
    (a b : ℤ) (c : ℕ) (m : ClientSets)
    → members a (without_client b c m)
      ≡ (if b ==ℤ a then select (λ d. not (d == c)) (members a m) else members a m)
unfolding select
members-without_client a b c m = ground (
  arith,
  ==ℤ_iff b a,
  members-put a b (select (λ (d : ℕ). not (d == c)) (members b m)) m,
  members-absent b m,
)

empty_of_length : (s : List ℕ) → (length s == 0) ≡ true → s ≡ []
empty_of_length [] h = refl
empty_of_length (x ∷ s) h = ground arith

members-without_empty :
    (a b : ℤ) (m : ClientSets) → IsMap m → members a (without_empty b m) ≡ members a m
members-without_empty a b m h =
    ground (arith, ==ℤ_iff b a, members-delete a b m h, empty_of_length (members b m))

IsMap-without_client : (b : ℤ) (c : ℕ) (m : ClientSets) → IsMap m → IsMap (without_client b c m)
IsMap-without_client b c m h =
    ground (arith, IsMap-put b (select (λ (d : ℕ). not (d == c)) (members b m)) m h)

IsMap-without_empty : (b : ℤ) (m : ClientSets) → IsMap m → IsMap (without_empty b m)
IsMap-without_empty b m h = ground (arith, IsMap-delete b m h)

pub IsMap-register : (b : ℤ) (h : Hub) → IsMap h.clients → IsMap (register b h).1.clients
unfolding register
IsMap-register b h k = IsMap-put b _ _ (IsMap-with_set b h.clients k)

pub IsMap-unregister :
    (b : ℤ) (r : Status) (c : ℕ) (h : Hub) → IsMap h.clients → IsMap (unregister b r c h).clients
unfolding unregister
IsMap-unregister b r c h k = IsMap-without_empty b _ (IsMap-without_client b c h.clients k)

-- The new client comes last in its account's set, and no other set changes.
pub members-register :
    (a b : ℤ) (h : Hub)
    → members a (register b h).1.clients
      ≡ (if b ==ℤ a then members a h.clients ++ h.next ∷ [] else members a h.clients)
unfolding register
members-register a b h =
    let m = with_set b h.clients in
    ground (
      arith,
      ==ℤ_iff b a,
      members-put a b (members b m ++ h.next ∷ []) m,
      members-with_set a b h.clients,
      members-with_set b b h.clients,
    )

pub members-unregister :
    (a b : ℤ) (r : Status) (c : ℕ) (h : Hub)
    → IsMap h.clients
    → members a (unregister b r c h).clients
      ≡ (if b ==ℤ a then select (λ d. not (d == c)) (members a h.clients) else members a h.clients)
unfolding unregister
members-unregister a b r c h k =
    members-without_empty a b _ (IsMap-without_client b c h.clients k)
    ∙ members-without_client a b c h.clients

pub registered-register :
    (a b : ℤ) (c : ℕ) (h : Hub)
    → registered a c (register b h).1 ≡ registered a c h || ((b ==ℤ a) && (h.next == c))
registered-register a b c h =
    ap (contains c) (members-register a b h)
    ∙ ground (arith, contains-append c h.next (members a h.clients))

pub registered-unregister :
    (a b : ℤ) (r : Status) (c d : ℕ) (h : Hub)
    → IsMap h.clients
    → registered a c (unregister b r d h) ≡ registered a c h && not ((b ==ℤ a) && (d == c))
registered-unregister a b r c d h k =
    ap (contains c) (members-unregister a b r d h k)
    ∙ ground (arith, contains-select c d (members a h.clients))

-- No client stands twice.
abbrev pub NoRepeat : List ℕ → Type 0
NoRepeat [] = Unit
NoRepeat (c ∷ s) = (contains c s ≡ false) × NoRepeat s

NoRepeat-append : (c : ℕ) (s : List ℕ) → contains c s ≡ false → NoRepeat s → NoRepeat (s ++ c ∷ [])
unfolding exists
NoRepeat-append c [] h k = (refl, tt)
NoRepeat-append c (x ∷ s) h k =
    let rest = NoRepeat-append c s (ground arith) k.1 in
    (contains-append x c s ∙ ground (arith, k.0), rest)

NoRepeat-select : (c : ℕ) (s : List ℕ) → NoRepeat s → NoRepeat (select (λ d. not (d == c)) s)
unfolding select
NoRepeat-select c [] k = tt
NoRepeat-select c (x ∷ s) k =
    let rest = NoRepeat-select c s k.1 in let here = contains-select x c s in ground (arith, k.0)

if-rule : (b : Bool) (s t : List ℕ) → NoRepeat s → NoRepeat t → NoRepeat (if b then s else t)
if-rule true s t hs ht = hs
if-rule false s t hs ht = ht

pub members-register-NoRepeat :
    (a b : ℤ) (h : Hub)
    → ((c : ℕ) → registered a c h ≡ true → c < h.next)
    → NoRepeat (members a h.clients)
    → NoRepeat (members a (register b h).1.clients)
members-register-NoRepeat a b h fresh k = subst NoRepeat (sym (members-register a b h)) (
    if-rule (b ==ℤ a) _ _
      (NoRepeat-append h.next (members a h.clients) (ground (arith, fresh h.next)) k) k)

pub members-unregister-NoRepeat :
    (a b : ℤ) (r : Status) (c : ℕ) (h : Hub)
    → IsMap h.clients
    → NoRepeat (members a h.clients)
    → NoRepeat (members a (unregister b r c h).clients)
members-unregister-NoRepeat a b r c h map k =
    subst NoRepeat (sym (members-unregister a b r c h map))
      (if-rule (b ==ℤ a) _ _ (NoRepeat-select c (members a h.clients) k) k)
