-- ===== src/Notification/Hub/Table.antt =====
-- `map[int64]map[*client]struct{}` as an association list from an account to a list of addresses.
use equilibra.Common.{ℕ, ◌≡◌, refl, Bool, true, false, List, [], ◌∷◌, ◌++◌, arith, if◌then◌else◌}
use equilibra.Common.Int.{ℤ, ◌==ℤ◌, ==ℤ_iff}

abbrev pub ClientSets : Type 0
ClientSets = List (ℤ × List ℕ)

unfoldable pub members : ℤ → ClientSets → List ℕ
members a [] = []
members a ((b, s) ∷ m) = if b ==ℤ a then s else members a m

unfoldable pub has_key : ℤ → ClientSets → Bool
has_key a [] = false
has_key a ((b, s) ∷ m) = if b ==ℤ a then true else has_key a m

-- `m[a] = s`
unfoldable pub put : ℤ → List ℕ → ClientSets → ClientSets
put a s [] = (a, s) ∷ []
put a s ((b, t) ∷ m) = if b ==ℤ a then (a, s) ∷ m else (b, t) ∷ put a s m

-- `delete(m, a)`
unfoldable pub delete : ℤ → ClientSets → ClientSets
delete a [] = []
delete a ((b, t) ∷ m) = if b ==ℤ a then m else (b, t) ∷ delete a m

-- All addresses, set by set.
unfoldable pub entries : ClientSets → List ℕ
entries [] = []
entries ((a, s) ∷ m) = s ++ entries m

-- No key stands twice.
abbrev pub IsMap : ClientSets → Type 0
IsMap [] = Unit
IsMap ((a, s) ∷ m) = (has_key a m ≡ false) × IsMap m

pub members-put :
    (a b : ℤ) (s : List ℕ) (m : ClientSets)
    → members a (put b s m) ≡ (if b ==ℤ a then s else members a m)
unfolding members put
members-put a b s [] = refl
members-put a b s ((c, t) ∷ m) =
    ground (arith, ==ℤ_iff b a, ==ℤ_iff c b, ==ℤ_iff c a, members-put a b s m)

pub members-absent : (a : ℤ) (m : ClientSets) → has_key a m ≡ false → members a m ≡ []
unfolding members has_key
members-absent a [] h = refl
members-absent a ((c, t) ∷ m) h = ground (arith, members-absent a m)

pub members-delete :
    (a b : ℤ) (m : ClientSets)
    → IsMap m
    → members a (delete b m) ≡ (if b ==ℤ a then [] else members a m)
unfolding members delete
members-delete a b [] h = ground arith
members-delete a b ((c, t) ∷ m) h =
    ground (
      arith,
      ==ℤ_iff b a,
      ==ℤ_iff c b,
      ==ℤ_iff c a,
      members-delete a b m h.1,
      members-absent c m h.0,
    )

pub has_key-put :
    (a b : ℤ) (s : List ℕ) (m : ClientSets)
    → has_key a (put b s m) ≡ (if b ==ℤ a then true else has_key a m)
unfolding has_key put
has_key-put a b s [] = refl
has_key-put a b s ((c, t) ∷ m) =
    ground (arith, ==ℤ_iff b a, ==ℤ_iff c b, ==ℤ_iff c a, has_key-put a b s m)

has_key-delete : (a b : ℤ) (m : ClientSets) → has_key a m ≡ false → has_key a (delete b m) ≡ false
unfolding has_key delete
has_key-delete a b [] h = refl
has_key-delete a b ((c, t) ∷ m) h = ground (arith, has_key-delete a b m)

pub IsMap-put : (a : ℤ) (s : List ℕ) (m : ClientSets) → IsMap m → IsMap (put a s m)
unfolding put has_key
IsMap-put a s [] h = (refl, tt)
IsMap-put a s ((c, t) ∷ m) h =
    ground (arith, ==ℤ_iff c a, ==ℤ_iff a c, has_key-put c a s m, IsMap-put a s m h.1)

pub IsMap-delete : (a : ℤ) (m : ClientSets) → IsMap m → IsMap (delete a m)
unfolding delete
IsMap-delete a [] h = tt
IsMap-delete a ((c, t) ∷ m) h = ground (arith, has_key-delete c a m h.0, IsMap-delete a m h.1)
