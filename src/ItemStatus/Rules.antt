-- ===== src/ItemStatus/Rules.antt =====
-- The rules of the docstring of `compute_allowed_statuses`, and what a validated transition means.
use dmis_feature_branch.Base.{
  ℕ, ◌≤◌, ◌<◌, ◌≡◌, ◌⊎◌, Bool, true, none, List, [], ◌∷◌, arith, ◌==◌, any, filter,
}
use dmis_feature_branch.ItemStatus.{
  ItemStatusRow, is_known, candidates, compute_allowed_statuses, validate_status_transition,
}

-- what a status says of the allocation: nothing allocated, some but not all, or at least all
abbrev pub Fits : ℕ → ℕ → ℕ → Type 0
Fits status allocated requested =
    ((allocated ≡ 0) × ((status ≡ b'R') ⊎ (status ≡ b'U') ⊎ (status ≡ b'D') ⊎ (status ≡ b'W')))
    ⊎ ((0 < allocated) × (allocated < requested) × ((status ≡ b'P') ⊎ (status ≡ b'L')))
    ⊎ ((0 < allocated) × (requested ≤ allocated) × (status ≡ b'F'))

any-filter :
    (p : ℕ → Bool) (s : ℕ) (xs : List ℕ)
    → any (λ x. x == s) (filter p xs) ≡ true
    → any (λ x. x == s) xs ≡ true
any-filter p s [] h = h
any-filter p s (x ∷ xs) h = ground (arith, any-filter p s xs)

candidates-Fits :
    (s allocated requested : ℕ) (activity : Bool)
    → any (λ x. x == s) (candidates allocated requested activity).1 ≡ true
    → Fits s allocated requested
unfolding candidates
candidates-Fits s allocated requested activity h = ground arith

-- A status is either kept, or fits the allocation.
pub validate_status_transition-Fits :
    (status_map : List ItemStatusRow) (current new allocated requested : ℕ) (activity : Bool)
    → validate_status_transition status_map current new allocated requested activity ≡ none
    → (current ≡ new) ⊎ Fits new allocated requested
unfolding validate_status_transition compute_allowed_statuses
validate_status_transition-Fits status_map current new allocated requested activity h = ground (
  arith,
  any-filter (is_known status_map) new (candidates allocated requested activity).1,
  candidates-Fits new allocated requested activity,
)
