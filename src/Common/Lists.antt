-- ===== src/Common/Lists.antt =====
-- Lists measured by the native numbers, predicates on all elements, and membership.
use Prim.Native.Nat.{ℕ, zero, suc, ◌+◌, ◌-◌}
use mathlib.Core.Path.{◌≡◌}
use mathlib.Core.Logic.{◌↔◌, ◌⊎◌, inl, inr}
use mathlib.Core.List.{List, [], ◌∷◌, ◌++◌, map}
use native.Mathlib.Omega.{arith}

module _ {ℓ} {A : Type ℓ} where
  abbrev pub length : List A → ℕ
  length [] = 0
  length (_ ∷ xs) = suc (length xs)

  abbrev pub drop : ℕ → List A → List A
  drop zero xs = xs
  drop (suc _) [] = []
  drop (suc n) (_ ∷ xs) = drop n xs

  pub length-append : (xs ys : List A) → length (xs ++ ys) ≡ length xs + length ys
  length-append [] ys = omega arith
  length-append (_ ∷ xs) ys = omega (arith, length-append xs ys)

  pub length-drop : (n : ℕ) (xs : List A) → length (drop n xs) ≡ length xs - n
  length-drop zero xs = omega arith
  length-drop (suc n) [] = omega arith
  length-drop (suc n) (_ ∷ xs) = omega (arith, length-drop n xs)

-- A property of every element of a list.
abbrev pub All {ℓ κ} : {A : Type ℓ} → (A → Type κ) → List A → Type κ
All P [] = Unit
All P (x ∷ xs) = P x × All P xs

pub All-append {ℓ κ} :
    {A : Type ℓ} (P : A → Type κ) (xs ys : List A) → All P xs → All P ys → All P (xs ++ ys)
All-append P [] ys hx hy = hy
All-append P (_ ∷ xs) ys (h, hx) hy = (h, All-append P xs ys hx hy)

-- The value is an element of the list.
abbrev pub Elem : {A : Type 0} → A → List A → Type 0
Elem x [] = ⊥
Elem x (y ∷ ys) = (x ≡ y) ⊎ Elem x ys

pub Elem-append :
    {A : Type 0} (x : A) (xs ys : List A) → Elem x (xs ++ ys) ↔ (Elem x xs ⊎ Elem x ys)
Elem-append x [] ys = (λ h. inr h, λ h. elim h [ inl bad ↦ absurd bad | inr k ↦ k ])
Elem-append x (y ∷ xs) ys =
    let (forth, back) = Elem-append x xs ys in
    (
      λ h. elim h [
        | inl e ↦ inl (inl e)
        | inr k ↦ elim (forth k) [ inl a ↦ inl (inr a) | inr b ↦ inr b ]
      ],
      λ h. elim h [
        | inl a ↦ elim a [ inl e ↦ inl e | inr k ↦ inr (back (inl k)) ]
        | inr b ↦ inr (back (inr b))
      ],
    )

-- A property of some element of a list.
abbrev pub Exists {ℓ} : {A : Type ℓ} → (A → Type 0) → List A → Type 0
Exists P [] = ⊥
Exists P (x ∷ xs) = P x ⊎ Exists P xs

module _ {ℓ κ} {A : Type ℓ} {B : Type κ} (P : B → Type 0) (Q : A → Type 0) (f : A → B) where
  pub All-map : ((x : A) → P (f x) → Q x) → (xs : List A) → All P (map f xs) → All Q xs
  All-map k [] h = tt
  All-map k (x ∷ xs) (h, hs) = (k x h, All-map k xs hs)

  pub Exists-map : ((x : A) → P (f x) → Q x) → (xs : List A) → Exists P (map f xs) → Exists Q xs
  Exists-map k [] h = absurd h
  Exists-map k (x ∷ xs) h = elim h [ inl a ↦ inl (k x a) | inr b ↦ inr (Exists-map k xs b) ]

pub All-imp {ℓ κ} :
    {A : Type ℓ} {P Q : A → Type κ} → ((x : A) → P x → Q x) → (xs : List A) → All P xs → All Q xs
All-imp k [] h = tt
All-imp k (x ∷ xs) (h, hs) = (k x h, All-imp k xs hs)
