-- ===== src/Base/Lists.antt =====
-- Lists with Boolean tests and native sums.
use Prim.Native.Nat.{ℕ, suc, ◌+◌, ◌≤◌}
use mathlib.Core.Path.{◌≡◌, refl, subst}
use mathlib.Core.Logic.{◌⊎◌, ◌↔◌, inl, inr}
use mathlib.Core.Bool.{Bool, true, false, not, ◌||◌, ◌&&◌}
use mathlib.Core.List.{List, [], ◌∷◌, ◌++◌}
use native.Mathlib.Omega.{arith}
use dmis_feature_branch.Base.Tests.{if◌then◌else◌, Bool-cases, true_and_false}

module _ {ℓ} {A : Type ℓ} where
  abbrev pub length : List A → ℕ
  length [] = 0
  length (x ∷ xs) = suc (length xs)

  -- `[x for x in xs if p(x)]`
  abbrev pub filter : (A → Bool) → List A → List A
  filter p [] = []
  filter p (x ∷ xs) = if p x then x ∷ filter p xs else filter p xs

  -- `any(p(x) for x in xs)`
  abbrev pub any : (A → Bool) → List A → Bool
  any p [] = false
  any p (x ∷ xs) = p x || any p xs

  -- `all(p(x) for x in xs)`
  abbrev pub all : (A → Bool) → List A → Bool
  all p [] = true
  all p (x ∷ xs) = p x && all p xs

  -- `sum(w(x) for x in xs)`
  abbrev pub total : (A → ℕ) → List A → ℕ
  total w [] = 0
  total w (x ∷ xs) = w x + total w xs

  pub total-append : (w : A → ℕ) (xs ys : List A) → total w (xs ++ ys) ≡ total w xs + total w ys
  total-append w [] ys = omega arith
  total-append w (x ∷ xs) ys = omega (arith, total-append w xs ys)

  pub length-filter-le : (p : A → Bool) (xs : List A) → length (filter p xs) ≤ length xs
  length-filter-le p [] = omega arith
  length-filter-le p (x ∷ xs) = ground (arith, length-filter-le p xs)

-- A predicate by recursion, which the tactics read and build.
abbrev pub All {ℓ κ} : {A : Type ℓ} → (A → Type κ) → List A → Type κ
All P [] = Unit
All P (x ∷ xs) = P x × All P xs

pub All-filter {ℓ κ} :
    {A : Type ℓ} (P : A → Type κ) (p : A → Bool) (xs : List A) → All P xs → All P (filter p xs)
All-filter P p [] h = tt
All-filter P p (x ∷ xs) h = ground (arith, All-filter P p xs h.1)

-- Membership by recursion.
abbrev pub In : {A : Type 0} → A → List A → Type 0
In a [] = ⊥
In a (x ∷ xs) = (x ≡ a) ⊎ In a xs

pub In-filter :
    {A : Type 0} (p : A → Bool) (xs : List A) (a : A)
    → In a (filter p xs) ↔ (In a xs × (p a ≡ true))
In-filter p [] a = (λ h. absurd h, λ h. h.0)
In-filter p (x ∷ xs) a = elim (Bool-cases (p x)) [
  | inl t ↦ rw t (
    λ h. elim h [
      | inl e ↦ (inl e, subst (λ y. p y ≡ true) e t)
      | inr r ↦ let (m, u) = (In-filter p xs a).0 r in (inr m, u)
    ],
    λ h. elim h.0 [ inl e ↦ inl e | inr r ↦ inr ((In-filter p xs a).1 (r, h.1)) ],
  )
  | inr t ↦ rw t (
    λ h. let (m, u) = (In-filter p xs a).0 h in (inr m, u),
    λ h. elim h.0 [
      | inl e ↦ absurd (true_and_false (p a) h.1 (subst (λ y. p y ≡ false) e t))
      | inr r ↦ (In-filter p xs a).1 (r, h.1)
    ],
  )
]

pub All-In {κ} : {A : Type 0} (P : A → Type κ) (xs : List A) (a : A) → All P xs → In a xs → P a
All-In P [] a h m = absurd m
All-In P (x ∷ xs) a h (inl e) = subst P e h.0
All-In P (x ∷ xs) a h (inr m) = All-In P xs a h.1 m

pub All-append {ℓ κ} :
    {A : Type ℓ} (P : A → Type κ) (xs ys : List A) → All P xs → All P ys → All P (xs ++ ys)
All-append P [] ys a b = b
All-append P (x ∷ xs) ys a b = (a.0, All-append P xs ys a.1 b)

-- Sums of elements that weigh the same.
pub total_cong {ℓ} :
    {A : Type ℓ} (v w : A → ℕ) (xs : List A) → All (λ x. v x ≡ w x) xs → total v xs ≡ total w xs
total_cong v w [] h = refl
total_cong v w (x ∷ xs) h = omega (arith, h.0, total_cong v w xs h.1)

module _ {ℓ} {A : Type ℓ} (p : A → Bool) where
  pub total-filter-append :
      (w : A → ℕ) (xs ys : List A)
      → total w (filter p (xs ++ ys)) ≡ total w (filter p xs) + total w (filter p ys)
  total-filter-append w [] ys = omega arith
  total-filter-append w (x ∷ xs) ys = ground (arith, total-filter-append w xs ys)

  -- Nothing that has been filtered out is found.
  pub filter-not : (xs : List A) → filter p (filter (λ x. not (p x)) xs) ≡ []
  filter-not [] = refl
  filter-not (x ∷ xs) = elim (Bool-cases (p x)) [
    | inl t ↦ rw t (filter-not xs)
    | inr t ↦ rw (t, filter, t) (filter-not xs)
  ]

-- Two lists without elements.
pub append_nil {ℓ} : {A : Type ℓ} (xs ys : List A) → xs ++ ys ≡ [] → (xs ≡ []) × (ys ≡ [])
append_nil [] ys h = (refl, h)
append_nil (x ∷ xs) ys h = cc

pub All-filter_own {ℓ} :
    {A : Type ℓ} (p : A → Bool) (xs : List A) → All (λ x. p x ≡ true) (filter p xs)
All-filter_own p [] = tt
All-filter_own p (x ∷ xs) = elim (Bool-cases (p x)) [
  | inl t ↦ rw t (t, All-filter_own p xs)
  | inr t ↦ rw t (All-filter_own p xs)
]
