-- ===== src/Base/Sort.antt =====
-- Python's `sorted(xs, key=…)`: a stable sort by a key, where keys are tuples that are compared from
-- the left, and a negated number compares the other way round.
use Prim.Native.Nat.{ℕ, ◌+◌}
use mathlib.Core.Path.{◌≡◌, refl}
use mathlib.Core.Logic.{◌⊎◌, ◌↔◌, inl, inr}
use mathlib.Core.Bool.{Bool, true, false, not, ◌&&◌, ◌||◌}
use mathlib.Core.List.{List, [], ◌∷◌}
use native.Mathlib.Omega.{arith}
use dmis_feature_branch.Base.Tests.{if◌then◌else◌, ltb, Bool-cases}
use dmis_feature_branch.Base.Lists.{All, In, total}

-- a component of a key: n, or -n
pub data Part : Type 0 where
  up : ℕ → Part
  down : ℕ → Part

unfoldable pub part_lt : Part → Part → Bool
part_lt (up m) (up n) = ltb m n
part_lt (up m) (down n) = false
part_lt (down m) (up n) = true
part_lt (down m) (down n) = ltb n m

-- `m < n` on tuples
unfoldable pub lex : List Part → List Part → Bool
unfolding part_lt
lex [] [] = false
lex [] (n ∷ ns) = true
lex (m ∷ ms) [] = false
lex (m ∷ ms) (n ∷ ns) = part_lt m n || (not (part_lt n m) && lex ms ns)

part_lt_asym : (m n : Part) → part_lt m n ≡ true → part_lt n m ≡ false
unfolding part_lt
part_lt_asym (up m) (up n) h = ground arith
part_lt_asym (up m) (down n) h = cc
part_lt_asym (down m) (up n) h = refl
part_lt_asym (down m) (down n) h = ground arith

-- `≤` on parts, as the negation of `<`, is transitive.
part_le_trans : (a b c : Part) → part_lt b a ≡ false → part_lt c b ≡ false → part_lt c a ≡ false
unfolding part_lt
part_le_trans (up a) (up b) (up c) h k = ground arith
part_le_trans (up a) (up b) (down c) h k = ground arith
part_le_trans (up a) (down b) c h k = ground arith
part_le_trans (down a) (up b) (up c) h k = ground arith
part_le_trans (down a) (up b) (down c) h k = ground arith
part_le_trans (down a) (down b) (up c) h k = ground arith
part_le_trans (down a) (down b) (down c) h k = ground arith

pub lex_asym : (m n : List Part) → lex m n ≡ true → lex n m ≡ false
unfolding lex
lex_asym [] [] h = refl
lex_asym [] (n ∷ ns) h = refl
lex_asym (m ∷ ms) [] h = cc
lex_asym (m ∷ ms) (n ∷ ns) h = ground (arith, part_lt_asym m n, part_lt_asym n m, lex_asym ms ns)

pub lex_irrefl : (m : List Part) → lex m m ≡ false
lex_irrefl m = elim (Bool-cases (lex m m)) [ inl t ↦ lex_asym m m t | inr t ↦ t ]

pub lex_le_trans : (a b c : List Part) → lex b a ≡ false → lex c b ≡ false → lex c a ≡ false
unfolding lex
lex_le_trans [] b [] h k = refl
lex_le_trans [] b (c ∷ cs) h k = refl
lex_le_trans (a ∷ as') [] c h k = cc
lex_le_trans (a ∷ as') (b ∷ bs) [] h k = cc
lex_le_trans (a ∷ as') (b ∷ bs) (c ∷ cs) h k = ground (
  arith,
  part_le_trans a b c,
  part_le_trans b c a,
  part_le_trans c a b,
  part_lt_asym a b,
  part_lt_asym b c,
  part_lt_asym a c,
  lex_le_trans as' bs cs,
)

module _ {A : Type 0} (key : A → List Part) where
  unfoldable pub place : A → List A → List A
  place x [] = x ∷ []
  place x (y ∷ ys) = if lex (key y) (key x) then y ∷ place x ys else x ∷ y ∷ ys

  unfoldable pub sorted : List A → List A
  unfolding place
  sorted [] = []
  sorted (x ∷ xs) = place x (sorted xs)

  -- No element has a key smaller than one before it.
  abbrev pub IsSorted : List A → Type 0
  IsSorted [] = Unit
  IsSorted (x ∷ xs) = All (λ y. lex (key y) (key x) ≡ false) xs × IsSorted xs

  place-All : (P : A → Type 0) (x : A) (xs : List A) → P x → All P xs → All P (place x xs)
  unfolding place
  place-All P x [] h a = (h, tt)
  place-All P x (y ∷ ys) h a = elim (Bool-cases (lex (key y) (key x))) [
    | inl t ↦ rw t (a.0, place-All P x ys h a.1)
    | inr t ↦ rw t (h, a)
  ]

  pub sorted-All : (P : A → Type 0) (xs : List A) → All P xs → All P (sorted xs)
  unfolding sorted
  sorted-All P [] a = tt
  sorted-All P (x ∷ xs) a = place-All P x (sorted xs) a.0 (sorted-All P xs a.1)

  above :
      (x y : A) (ys : List A)
      → lex (key y) (key x) ≡ false
      → All (λ z. lex (key z) (key y) ≡ false) ys
      → All (λ z. lex (key z) (key x) ≡ false) ys
  above x y [] h a = tt
  above x y (z ∷ zs) h a = (lex_le_trans (key x) (key y) (key z) h a.0, above x y zs h a.1)

  place-IsSorted : (x : A) (xs : List A) → IsSorted xs → IsSorted (place x xs)
  unfolding place
  place-IsSorted x [] s = (tt, tt)
  place-IsSorted x (y ∷ ys) s = elim (Bool-cases (lex (key y) (key x))) [
    | inl t ↦ rw t (
      place-All (λ z. lex (key z) (key y) ≡ false) x ys (lex_asym (key y) (key x) t) s.0,
      place-IsSorted x ys s.1,
    )
    | inr t ↦ rw t ((t, above x y ys t s.0), s)
  ]

  pub sorted-IsSorted : (xs : List A) → IsSorted (sorted xs)
  unfolding sorted
  sorted-IsSorted [] = tt
  sorted-IsSorted (x ∷ xs) = place-IsSorted x (sorted xs) (sorted-IsSorted xs)

  place-In : (x : A) (xs : List A) (a : A) → In a (place x xs) ↔ ((x ≡ a) ⊎ In a xs)
  unfolding place
  place-In x [] a = (λ h. h, λ h. h)
  place-In x (y ∷ ys) a = elim (Bool-cases (lex (key y) (key x))) [
    | inl t ↦ rw t (
      λ h. elim h [
        | inl e ↦ inr (inl e)
        | inr m ↦ elim ((place-In x ys a).0 m) [ inl e ↦ inl e | inr n ↦ inr (inr n) ]
      ],
      λ h. elim h [
        | inl e ↦ inr ((place-In x ys a).1 (inl e))
        | inr m ↦ elim m [ inl e ↦ inl e | inr n ↦ inr ((place-In x ys a).1 (inr n)) ]
      ],
    )
    | inr t ↦ rw t (λ h. h, λ h. h)
  ]

  -- Sorting keeps the members.
  pub sorted-In : (xs : List A) (a : A) → In a (sorted xs) ↔ In a xs
  unfolding sorted
  sorted-In [] a = (λ h. h, λ h. h)
  sorted-In (x ∷ xs) a = (
    λ h. elim ((place-In x (sorted xs) a).0 h) [
      | inl e ↦ inl e
      | inr m ↦ inr ((sorted-In xs a).0 m)
    ],
    λ h. elim h [
      | inl e ↦ (place-In x (sorted xs) a).1 (inl e)
      | inr m ↦ (place-In x (sorted xs) a).1 (inr ((sorted-In xs a).1 m))
    ],
  )

  place-total : (w : A → ℕ) (x : A) (xs : List A) → total w (place x xs) ≡ w x + total w xs
  unfolding place
  place-total w x [] = refl
  place-total w x (y ∷ ys) = ground (arith, place-total w x ys)

  -- Sorting keeps every sum.
  pub sorted-total : (w : A → ℕ) (xs : List A) → total w (sorted xs) ≡ total w xs
  unfolding sorted
  sorted-total w [] = refl
  sorted-total w (x ∷ xs) = ground (arith, place-total w x (sorted xs), sorted-total w xs)
