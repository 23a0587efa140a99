-- ===== src/Base/Table.antt =====
-- A database table as the list of its rows: `filter_by(…).first()` and the update of the row
-- that it returned.
use Prim.Native.Nat.{ℕ, ◌+◌}
use mathlib.Core.Path.{◌≡◌, refl, subst}
use mathlib.Core.Bool.{Bool, true, false, ◌||◌}
use mathlib.Core.Option.{Option, none, some}
use mathlib.Core.List.{List, [], ◌∷◌, ◌++◌}
use native.Mathlib.Omega.{arith}
use mathlib.Core.Logic.{inl, inr}
use dmis_feature_branch.Base.Tests.{if◌then◌else◌, is_some, Bool-cases, Option-cases}
use dmis_feature_branch.Base.Lists.{All, All-append, any, total, total-append}

module _ {ℓ} {A : Type ℓ} where
  -- `query.filter(p).first()`
  unfoldable pub first : (A → Bool) → List A → Option A
  first p [] = none
  first p (x ∷ xs) = if p x then some x else first p xs

  -- the table after the object that `first p` returns has been changed by `f`
  unfoldable pub modify : (A → Bool) → (A → A) → List A → List A
  modify p f [] = []
  modify p f (x ∷ xs) = if p x then f x ∷ xs else x ∷ modify p f xs

  pub first_holds : (p : A → Bool) (xs : List A) (x : A) → first p xs ≡ some x → p x ≡ true
  unfolding first
  first_holds p [] y e = cc
  first_holds p (x ∷ xs) y e = ground (arith, first_holds p xs y)

  pub modify-none :
      (p : A → Bool) (f : A → A) (xs : List A) → first p xs ≡ none → modify p f xs ≡ xs
  unfolding first modify
  modify-none p f [] e = refl
  modify-none p f (x ∷ xs) e = ground (arith, modify-none p f xs)

  pub first-modify_self :
      (p : A → Bool) (f : A → A) (xs : List A) (x : A)
      → first p xs ≡ some x
      → p (f x) ≡ true
      → first p (modify p f xs) ≡ some (f x)
  unfolding first modify
  first-modify_self p f [] y e h = cc
  first-modify_self p f (x ∷ xs) y e h = ground (arith, first-modify_self p f xs y)

  -- A query that meets neither the old nor the new row does not see the update.
  pub first-modify_other :
      (p q : A → Bool) (f : A → A) (xs : List A)
      → ((x : A) → p x ≡ true → (q x ≡ false) × (q (f x) ≡ false))
      → first q (modify p f xs) ≡ first q xs
  unfolding first modify
  first-modify_other p q f [] h = refl
  first-modify_other p q f (x ∷ xs) h = ground (arith, h x, first-modify_other p q f xs h)

  -- What a wider query finds after the update is what it found before, updated if it is the row.
  pub first-modify_wider :
      (p q : A → Bool) (f : A → A) (xs : List A) (y : A)
      → ((x : A) → p x ≡ true → (q x ≡ true) × (q (f x) ≡ true))
      → first q (modify p f xs) ≡ some y
      → (x : A) × (first q xs ≡ some x) × (y ≡ (if p x then f x else x))
  unfolding first modify
  first-modify_wider p q f [] y h e = cc
  first-modify_wider p q f (x ∷ xs) y h e = elim (Bool-cases (p x)) [
    | inl t ↦ (x, ground (arith, h x), ground (arith, h x))
    | inr t ↦ elim (Bool-cases (q x)) [
      | inl u ↦ (x, ground arith, ground arith)
      | inr u ↦
          let (z, found, same) = first-modify_wider p q f xs y h (ground arith) in
          (z, ground arith, same)
    ]
  ]

  pub total-modify :
      (w : A → ℕ) (p : A → Bool) (f : A → A) (xs : List A) (x : A)
      → first p xs ≡ some x
      → total w (modify p f xs) + w x ≡ total w xs + w (f x)
  unfolding first modify
  total-modify w p f [] y e = cc
  total-modify w p f (x ∷ xs) y e = ground (arith, total-modify w p f xs y)

  -- An update that keeps the weight of the rows it can meet keeps the sum.
  pub total-modify_same :
      (w : A → ℕ) (p : A → Bool) (f : A → A) (xs : List A)
      → ((x : A) → p x ≡ true → w (f x) ≡ w x)
      → total w (modify p f xs) ≡ total w xs
  unfolding modify
  total-modify_same w p f [] h = refl
  total-modify_same w p f (x ∷ xs) h = ground (arith, h x, total-modify_same w p f xs h)

  pub All-modify {κ} :
      (P : A → Type κ) (p : A → Bool) (f : A → A) (xs : List A)
      → ((x : A) → p x ≡ true → P x → P (f x))
      → All P xs
      → All P (modify p f xs)
  unfolding modify
  All-modify P p f [] h a = a
  All-modify P p f (x ∷ xs) h a = elim (Bool-cases (p x)) [
    | inl e ↦ rw e (h x e a.0, a.1)
    | inr e ↦ rw e (a.0, All-modify P p f xs h a.1)
  ]

  -- An update of the row that was found only has to establish `P` for that row.
  pub All-modify-first {κ} :
      (P : A → Type κ) (p : A → Bool) (f : A → A) (xs : List A) (x : A)
      → first p xs ≡ some x
      → P (f x)
      → All P xs
      → All P (modify p f xs)
  unfolding first modify
  All-modify-first P p f [] y e h a = a
  All-modify-first P p f (x ∷ xs) y e h a = elim (Bool-cases (p x)) [
    | inl t ↦ rw t (subst (λ z. P (f z)) (ground arith) h, a.1)
    | inr t ↦ rw t (a.0, All-modify-first P p f xs y (ground arith) h a.1)
  ]

  pub first-All {κ} :
      (P : A → Type κ) (p : A → Bool) (xs : List A) (x : A) → All P xs → first p xs ≡ some x → P x
  unfolding first
  first-All P p [] y a e = cc
  first-All P p (x ∷ xs) y a e = elim (Bool-cases (p x)) [
    | inl t ↦ subst P (ground arith) a.0
    | inr t ↦ first-All P p xs y a.1 (ground arith)
  ]

  -- `db.session.delete(query.first())`
  unfoldable pub remove : (A → Bool) → List A → List A
  remove p [] = []
  remove p (x ∷ xs) = if p x then xs else x ∷ remove p xs

  pub All-remove {κ} :
      (P : A → Type κ) (p : A → Bool) (xs : List A) → All P xs → All P (remove p xs)
  unfolding remove
  All-remove P p [] a = a
  All-remove P p (x ∷ xs) a = elim (Bool-cases (p x)) [
    | inl t ↦ rw t a.1
    | inr t ↦ rw t (a.0, All-remove P p xs a.1)
  ]

  -- What a query finds is found when rows are added behind.
  pub first-append :
      (p : A → Bool) (xs ys : List A) (x : A) → first p xs ≡ some x → first p (xs ++ ys) ≡ some x
  unfolding first
  first-append p [] ys y e = cc
  first-append p (x ∷ xs) ys y e = ground (arith, first-append p xs ys y)

  -- What none of the rows was is found behind them.
  pub first-append_new :
      (p : A → Bool) (xs : List A) (x : A)
      → first p xs ≡ none
      → p x ≡ true
      → first p (xs ++ (x ∷ [])) ≡ some x
  unfolding first
  first-append_new p [] y e h = rw h refl
  first-append_new p (x ∷ xs) y e h = ground (arith, first-append_new p xs y)

  -- the update of the row that `p` finds, or a new row behind the others
  abbrev pub upsert : (A → Bool) → (A → A) → A → List A → List A
  upsert p f y xs = if is_some (first p xs) then modify p f xs else xs ++ (y ∷ [])

  pub total-upsert :
      (w : A → ℕ) (p : A → Bool) (f : A → A) (y : A) (d : ℕ) (xs : List A)
      → ((x : A) → p x ≡ true → w (f x) ≡ w x + d)
      → w y ≡ d
      → total w (upsert p f y xs) ≡ total w xs + d
  total-upsert w p f y d xs h k = elim (Option-cases (first p xs)) [
    | inl e ↦ rw e (omega (arith, total-append w xs (y ∷ []), k))
    | inr (x, e) ↦ rw e (omega (arith, total-modify w p f xs x e, h x (first_holds p xs x e)))
  ]

  pub All-upsert {κ} :
      (P : A → Type κ) (p : A → Bool) (f : A → A) (y : A) (xs : List A)
      → ((x : A) → p x ≡ true → P x → P (f x))
      → P y
      → All P xs
      → All P (upsert p f y xs)
  All-upsert P p f y xs h k a = elim (Bool-cases (is_some (first p xs))) [
    | inl e ↦ rw e (All-modify P p f xs h a)
    | inr e ↦ rw e (All-append P xs (y ∷ []) a (k, tt))
  ]

  first-append_other :
      (q : A → Bool) (xs : List A) (y : A) → q y ≡ false → first q (xs ++ (y ∷ [])) ≡ first q xs
  unfolding first
  first-append_other q [] y h = rw h refl
  first-append_other q (x ∷ xs) y h = ground (arith, first-append_other q xs y h)

  pub first-upsert_other :
      (p q : A → Bool) (f : A → A) (y : A) (xs : List A)
      → ((x : A) → p x ≡ true → (q x ≡ false) × (q (f x) ≡ false))
      → q y ≡ false
      → first q (upsert p f y xs) ≡ first q xs
  first-upsert_other p q f y xs h k = elim (Bool-cases (is_some (first p xs))) [
    | inl e ↦ rw e (first-modify_other p q f xs h)
    | inr e ↦ rw e (first-append_other q xs y k)
  ]

  any-modify :
      (p q : A → Bool) (f : A → A) (xs : List A)
      → ((x : A) → p x ≡ true → q (f x) ≡ q x)
      → any q (modify p f xs) ≡ any q xs
  unfolding modify
  any-modify p q f [] h = refl
  any-modify p q f (x ∷ xs) h = ground (arith, h x, any-modify p q f xs h)

  any-append : (q : A → Bool) (xs : List A) (y : A) → any q (xs ++ (y ∷ [])) ≡ (any q xs || q y)
  any-append q [] y = ground arith
  any-append q (x ∷ xs) y = ground (arith, any-append q xs y)

  -- A row that `q` meets after the update was there before, or is the new one.
  pub any-upsert :
      (p q : A → Bool) (f : A → A) (y : A) (xs : List A)
      → ((x : A) → p x ≡ true → q (f x) ≡ q x)
      → any q (upsert p f y xs) ≡ true
      → (any q xs || q y) ≡ true
  any-upsert p q f y xs h e = elim (Bool-cases (is_some (first p xs))) [
    | inl t ↦ ground (arith, any-modify p q f xs h)
    | inr t ↦ ground (arith, any-append q xs y)
  ]

  pub total_none :
      (p : A → Bool) (w : A → ℕ) (xs : List A)
      → any p xs ≡ false
      → total (λ x. if p x then w x else 0) xs ≡ 0
  total_none p w [] h = refl
  total_none p w (x ∷ xs) h = ground (arith, total_none p w xs)

  -- the row that an upsert leaves, from the one that was found
  abbrev pub upserted : (A → A) → A → Option A → A
  upserted f y none = y
  upserted f y (some x) = f x

  pub first-upsert_self :
      (p : A → Bool) (f : A → A) (y : A) (xs : List A)
      → ((x : A) → p x ≡ true → p (f x) ≡ true)
      → p y ≡ true
      → first p (upsert p f y xs) ≡ some (upserted f y (first p xs))
  first-upsert_self p f y xs h k = elim (Option-cases (first p xs)) [
    | inl e ↦ rw e (first-append_new p xs y e k)
    | inr (x, e) ↦ rw e (first-modify_self p f xs x e (h x (first_holds p xs x e)))
  ]
