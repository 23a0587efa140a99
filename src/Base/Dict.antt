-- ===== src/Base/Dict.antt =====
-- A Python dict in insertion order, and a set as the list of its members. Keys are compared by
-- an instance.
use Prim.Native.Nat.{ℕ, ◌+◌}
use mathlib.Core.Path.{◌≡◌, refl, ap}
use mathlib.Core.Logic.{◌↔◌, inl, inr}
use mathlib.Core.Bool.{Bool, true, false, ◌||◌}
use mathlib.Core.Option.{Option, none, some}
use mathlib.Core.List.{List, [], ◌∷◌}
use native.Mathlib.Omega.{arith}
use dmis_feature_branch.Base.Tests.{if◌then◌else◌, Bool-cases}
use dmis_feature_branch.Base.Lists.{All}

pub record Eq {ℓ} (A : Type ℓ) : Type ℓ where
  pub beq : A → A → Bool
  pub beq_iff : (a b : A) → (beq a b ≡ true) ↔ (a ≡ b)

abbrev pub Dict {ℓ} : Type 0 → Type ℓ → Type ℓ
Dict K V = List (K × V)

module _ {K : Type 0} ⦃e : Eq K⦄ where
  -- `k in ks`
  unfoldable pub contains : K → List K → Bool
  contains k [] = false
  contains k (j ∷ ks) = e.beq j k || contains k ks

  -- `ks.add(k)`
  unfoldable pub add : K → List K → List K
  unfolding contains
  add k ks = if contains k ks then ks else k ∷ ks

  pub contains-add : (k j : K) (ks : List K) → contains j (add k ks) ≡ (e.beq k j || contains j ks)
  unfolding add contains
  contains-add k j ks = elim (Bool-cases (contains k ks)) [
    | inl old ↦ ground (arith, e.beq_iff k j)
    | inr new ↦ ground (arith, e.beq_iff k j)
  ]

  -- A member and a non-member differ.
  pub beq_of_contains :
      (k j : K) (ks : List K) → contains k ks ≡ true → contains j ks ≡ false → e.beq k j ≡ false
  beq_of_contains k j ks h n = elim (Bool-cases (e.beq k j)) [
    | inl t ↦ cc (ap (λ i. contains i ks) ((e.beq_iff k j).0 t))
    | inr t ↦ t
  ]

  -- no member twice
  abbrev pub Distinct : List K → Type 0
  Distinct [] = Unit
  Distinct (k ∷ ks) = (contains k ks ≡ false) × Distinct ks

  pub Distinct-add : (k : K) (ks : List K) → Distinct ks → Distinct (add k ks)
  unfolding add
  Distinct-add k ks d = elim (Bool-cases (contains k ks)) [ inl t ↦ rw t d | inr t ↦ rw t (t, d) ]

  pub All-add {κ} : (P : K → Type κ) (k : K) (ks : List K) → P k → All P ks → All P (add k ks)
  unfolding add
  All-add P k ks h a = elim (Bool-cases (contains k ks)) [ inl t ↦ rw t a | inr t ↦ rw t (h, a) ]

module _ {ℓ} {K : Type 0} {V : Type ℓ} where
  -- `d.keys()`
  abbrev pub keys : Dict K V → List K
  keys [] = []
  keys ((k, v) ∷ d) = k ∷ keys d

module _ {ℓ} {K : Type 0} {V : Type ℓ} ⦃e : Eq K⦄ where
  -- `d.get(k)`
  unfoldable pub lookup : K → Dict K V → Option V
  lookup k [] = none
  lookup k ((j, v) ∷ d) = if e.beq j k then some v else lookup k d

  -- `d[k] = v`
  unfoldable pub insert : K → V → Dict K V → Dict K V
  insert k v [] = (k, v) ∷ []
  insert k v ((j, w) ∷ d) = if e.beq j k then (j, v) ∷ d else (j, w) ∷ insert k v d

  pub lookup-insert :
      (k j : K) (v : V) (d : Dict K V)
      → lookup j (insert k v d) ≡ (if e.beq k j then some v else lookup j d)
  unfolding lookup insert
  lookup-insert k j v [] = refl
  lookup-insert k j v ((i, w) ∷ d) =
      ground (arith, e.beq_iff k j, e.beq_iff i k, e.beq_iff i j, lookup-insert k j v d)

  pub contains-insert :
      (k j : K) (v : V) (d : Dict K V)
      → contains j (keys (insert k v d)) ≡ (e.beq k j || contains j (keys d))
  unfolding insert contains
  contains-insert k j v [] = refl
  contains-insert k j v ((i, w) ∷ d) =
      ground (arith, e.beq_iff i k, e.beq_iff i j, e.beq_iff k j, contains-insert k j v d)

  -- Assignment keeps the keys of a dict distinct.
  pub Distinct-insert :
      (k : K) (v : V) (d : Dict K V) → Distinct (keys d) → Distinct (keys (insert k v d))
  unfolding insert contains
  Distinct-insert k v [] h = (refl, tt)
  Distinct-insert k v ((i, w) ∷ d) h = elim (Bool-cases (e.beq i k)) [
    | inl t ↦ rw t h
    | inr t ↦ rw t (
      ground (arith, contains-insert k i v d, e.beq_iff k i, e.beq_iff i k),
      Distinct-insert k v d h.1,
    )
  ]

  pub lookup_not_contains : (k : K) (d : Dict K V) → contains k (keys d) ≡ false → lookup k d ≡ none
  unfolding contains lookup
  lookup_not_contains k [] h = refl
  lookup_not_contains k ((j, v) ∷ d) h = ground (arith, lookup_not_contains k d)

-- `d[k] += q` on a `defaultdict(Decimal)`
module _ {K : Type 0} ⦃e : Eq K⦄ where
  abbrev pub get_or_zero : K → Dict K ℕ → ℕ
  get_or_zero k d = elim (lookup k d) [ none ↦ 0 | some q ↦ q ]

  unfoldable pub add_to : K → ℕ → Dict K ℕ → Dict K ℕ
  add_to k q d = insert k (get_or_zero k d + q) d
