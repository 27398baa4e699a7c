-- ===== src/Common/Perms.antt =====
-- Permutations of lists: what selecting and ordering do to them.
use Prim.Native.Nat.{suc}
use equilibra.Common.Tests.{if◌then◌else◌}
use mathlib.Core.Path.{◌≡◌, refl, ap, ◌∙◌, subst}
use mathlib.Core.Bool.{Bool, true, false}
use mathlib.Core.List.{List, [], ◌∷◌, Permᴰ}
use mathlib.Core.List.Permᴰ
use equilibra.Common.Lists.{All, length, select, insert_by, order_by}

module _ {ℓ} {A : Type ℓ} where
  pub All-perm {κ} : (P : A → Type κ) (xs ys : List A) → Permᴰ xs ys → All P xs → All P ys
  All-perm P _ _ Permᴰ.nil h = tt
  All-perm P (a ∷ xs) (b ∷ ys) (Permᴰ.cons e d) h = (subst P e h.0, All-perm P xs ys d h.1)
  All-perm P (a ∷ b ∷ xs) _ (Permᴰ.swap e₁ e₂) h = (subst P e₂ h.1.0, (subst P e₁ h.0, h.1.1))
  All-perm P xs ys (Permᴰ.trans {l₂ = l} d₁ d₂) h = All-perm P l ys d₂ (All-perm P xs l d₁ h)

  pub insert_by-perm :
      (before : A → A → Bool) (x : A) (xs : List A) → Permᴰ (x ∷ xs) (insert_by before x xs)
  unfolding insert_by
  insert_by-perm before x [] = Permᴰ.refl (x ∷ [])
  insert_by-perm before x (y ∷ ys) = by_test (before x y) (insert_by-perm before x ys)
    where
      by_test :
          (b : Bool)
          → Permᴰ (x ∷ ys) (insert_by before x ys)
          → Permᴰ (x ∷ y ∷ ys) (if b then x ∷ y ∷ ys else y ∷ insert_by before x ys)
      by_test true d = Permᴰ.refl (x ∷ y ∷ ys)
      by_test false d = Permᴰ.trans (Permᴰ.swap refl refl) (Permᴰ.cons refl d)

  pub order_by-perm : (before : A → A → Bool) (xs : List A) → Permᴰ xs (order_by before xs)
  unfolding order_by
  order_by-perm before [] = Permᴰ.nil
  order_by-perm before (x ∷ xs) =
      Permᴰ.trans (Permᴰ.cons refl (order_by-perm before xs))
        (insert_by-perm before x (order_by before xs))

  pub select-perm :
      (p : A → Bool) (xs ys : List A) → Permᴰ xs ys → Permᴰ (select p xs) (select p ys)
  unfolding select
  select-perm p _ _ Permᴰ.nil = Permᴰ.nil
  select-perm p (a ∷ xs) (b ∷ ys) (Permᴰ.cons e d) =
      subst (λ c. Permᴰ (select p (a ∷ xs)) (select p (c ∷ ys))) e
        (by_test (p a) (select-perm p xs ys d))
    where
      by_test :
          (t : Bool)
          → Permᴰ (select p xs) (select p ys)
          → Permᴰ
              (if t then a ∷ select p xs else select p xs)
              (if t then a ∷ select p ys else select p ys)
      by_test true k = Permᴰ.cons refl k
      by_test false k = k
  select-perm p (a ∷ b ∷ xs) (b' ∷ a' ∷ _) (Permᴰ.swap e₁ e₂) =
      subst (λ c. Permᴰ (select p (a ∷ b ∷ xs)) (select p (b' ∷ c ∷ xs))) e₁
        (subst (λ c. Permᴰ (select p (a ∷ b ∷ xs)) (select p (c ∷ a ∷ xs))) e₂
          (by_test (p a) (p b)))
    where
      by_test :
          (s t : Bool)
          → Permᴰ
              (if s
                then a ∷ (if t then b ∷ select p xs else select p xs)
                else (if t then b ∷ select p xs else select p xs))
              (if t
                then b ∷ (if s then a ∷ select p xs else select p xs)
                else (if s then a ∷ select p xs else select p xs))
      by_test true true = Permᴰ.swap refl refl
      by_test true false = Permᴰ.refl (a ∷ select p xs)
      by_test false true = Permᴰ.refl (b ∷ select p xs)
      by_test false false = Permᴰ.refl (select p xs)
  select-perm p xs ys (Permᴰ.trans {l₂ = l} d₁ d₂) =
      Permᴰ.trans (select-perm p xs l d₁) (select-perm p l ys d₂)

  pub length-perm : (xs ys : List A) → Permᴰ xs ys → length xs ≡ length ys
  length-perm _ _ Permᴰ.nil = refl
  length-perm (a ∷ xs) (b ∷ ys) (Permᴰ.cons e d) = ap suc (length-perm xs ys d)
  length-perm (a ∷ b ∷ xs) _ (Permᴰ.swap e₁ e₂) = refl
  length-perm xs ys (Permᴰ.trans {l₂ = l} d₁ d₂) = length-perm xs l d₁ ∙ length-perm l ys d₂
