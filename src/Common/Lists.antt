-- ===== src/Common/Lists.antt =====
-- Lists measured by native numbers, Boolean search and filter, and predicates on all elements.
use Prim.Native.Nat.{ℕ, zero, suc, ◌+◌}
use mathlib.Core.Path.{◌≡◌, refl, sym, subst}
use mathlib.Core.Logic.{inl, inr}
use mathlib.Core.Bool.{Bool, true, false}
use mathlib.Core.Option.{Option, none, some}
use mathlib.Core.List.{List, [], ◌∷◌, ◌++◌}
use native.Mathlib.Omega.{arith}
use equilibra.Common.Tests.{Bool-cases, if◌then◌else◌}

module _ {ℓ} {A : Type ℓ} where
  abbrev pub length : List A → ℕ
  length [] = 0
  length (x ∷ xs) = suc (length xs)

  abbrev pub take : ℕ → List A → List A
  take zero xs = []
  take (suc n) [] = []
  take (suc n) (x ∷ xs) = x ∷ take n xs

  -- The first row that passes the test: `SELECT … WHERE p` read by one `QueryRow`.
  unfoldable pub find : (A → Bool) → List A → Option A
  find p [] = none
  find p (x ∷ xs) = if p x then some x else find p xs

  -- `EXISTS (SELECT … WHERE p)`.
  unfoldable pub exists : (A → Bool) → List A → Bool
  exists p [] = false
  exists p (x ∷ xs) = if p x then true else exists p xs

  -- The rows that pass the test, in table order.
  unfoldable pub select : (A → Bool) → List A → List A
  select p [] = []
  select p (x ∷ xs) = let rest = select p xs in if p x then x ∷ rest else rest

  abbrev pub All {κ} : (A → Type κ) → List A → Type κ
  All P [] = Unit
  All P (x ∷ xs) = P x × All P xs

  -- `ORDER BY`: insertion by a test that says whether the first row comes before the second.
  unfoldable pub insert_by : (A → A → Bool) → A → List A → List A
  insert_by before x [] = x ∷ []
  insert_by before x (y ∷ ys) =
      let rest = insert_by before x ys in if before x y then x ∷ y ∷ ys else y ∷ rest

  unfoldable pub order_by : (A → A → Bool) → List A → List A
  unfolding insert_by
  order_by before [] = []
  order_by before (x ∷ xs) = insert_by before x (order_by before xs)

  pub length-append : (xs ys : List A) → length (xs ++ ys) ≡ length xs + length ys
  length-append [] ys = omega arith
  length-append (x ∷ xs) ys = omega (arith, length-append xs ys)

  pub All-append {κ} : (P : A → Type κ) (xs ys : List A) → All P xs → All P ys → All P (xs ++ ys)
  All-append P [] ys hx hy = hy
  All-append P (x ∷ xs) ys hx hy = (hx.0, All-append P xs ys hx.1 hy)

  pub find-append :
      (p : A → Bool) (xs ys : List A)
      → find p (xs ++ ys) ≡ elim (find p xs) [ none ↦ find p ys | some x ↦ some x ]
  unfolding find
  find-append p [] ys = refl
  find-append p (x ∷ xs) ys = ground (arith, find-append p xs ys)

  pub exists-append_true :
      (p : A → Bool) (xs ys : List A) → exists p ys ≡ true → exists p (xs ++ ys) ≡ true
  unfolding exists
  exists-append_true p [] ys h = h
  exists-append_true p (x ∷ xs) ys h = ground (arith, exists-append_true p xs ys h)

  pub some_injective : {x y : A} → some x ≡ some y → x ≡ y
  some_injective h = cc

module _ {ℓ} {A : Type ℓ} where
  -- What is found among elements that all have a property has it.
  pub find-All {κ} :
      (P : A → Type κ) (p : A → Bool) (xs : List A) {x : A} → All P xs → find p xs ≡ some x → P x
  unfolding find
  find-All P p [] h e = absurd (cc)
  find-All P p (y ∷ ys) h e = elim (Bool-cases (p y)) [
    | inl found ↦ subst P (some_injective (rw found at e)) h.0
    | inr passed ↦ find-All P p ys h.1 (rw passed at e)
  ]

  pub find-test : (p : A → Bool) (xs : List A) {x : A} → find p xs ≡ some x → p x ≡ true
  unfolding find
  find-test p [] e = absurd (cc)
  find-test p (y ∷ ys) e = elim (Bool-cases (p y)) [
    | inl found ↦ subst (λ z. p z ≡ true) (some_injective (rw found at e)) found
    | inr passed ↦ find-test p ys (rw passed at e)
  ]

module _ {ℓ} {A : Type ℓ} where
  -- What is found by one test, and passes another, makes the other's search succeed.
  pub exists_of_find :
      (p q : A → Bool) (xs : List A) {x : A} → find p xs ≡ some x → q x ≡ true → exists q xs ≡ true
  unfolding find exists
  exists_of_find p q [] e h = absurd (cc)
  exists_of_find p q (y ∷ ys) e h = elim (Bool-cases (p y)) [
    | inl found ↦
        let first = subst (λ z. q z ≡ true) (sym (some_injective (rw found at e))) h in
        rw first refl
    | inr passed ↦ stays (q y) (exists_of_find p q ys (rw passed at e) h)
  ]
    where
      stays : (b : Bool) → exists q ys ≡ true → (if b then true else exists q ys) ≡ true
      stays true k = refl
      stays false k = k

module _ {ℓ κ} {A : Type ℓ} (P : A → Type κ) where
  pub All-take : (n : ℕ) (xs : List A) → All P xs → All P (take n xs)
  All-take zero xs h = tt
  All-take (suc n) [] h = tt
  All-take (suc n) (x ∷ xs) h = (h.0, All-take n xs h.1)

  All-branch : (b : Bool) (xs ys : List A) → All P xs → All P ys → All P (if b then xs else ys)
  All-branch true xs ys hx hy = hx
  All-branch false xs ys hx hy = hy

  pub All-select : (p : A → Bool) (xs : List A) → All P xs → All P (select p xs)
  unfolding select
  All-select p [] h = tt
  All-select p (x ∷ xs) h = let rest = All-select p xs h.1 in All-branch (p x) _ _ (h.0, rest) rest

  pub All-insert_by :
      (b : A → A → Bool) (x : A) (xs : List A) → P x → All P xs → All P (insert_by b x xs)
  unfolding insert_by
  All-insert_by b x [] hx h = (hx, tt)
  All-insert_by b x (y ∷ ys) hx h =
      All-branch (b x y) _ _ (hx, h) (h.0, All-insert_by b x ys hx h.1)

  pub All-order_by : (b : A → A → Bool) (xs : List A) → All P xs → All P (order_by b xs)
  unfolding order_by
  All-order_by b [] h = tt
  All-order_by b (x ∷ xs) h = All-insert_by b x (order_by b xs) h.0 (All-order_by b xs h.1)
