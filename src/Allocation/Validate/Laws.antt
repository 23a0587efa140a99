-- ===== src/Allocation/Validate/Laws.antt =====
-- What a validated allocation means, and that nothing else is refused.
use dmis_feature_branch.Base.{
  ℕ, ◌+◌, ◌≤◌, ◌<◌, ◌≡◌, ◌↔◌, refl, subst, false, none, some, Option, List, arith, ◌==◌,
}
use dmis_feature_branch.Base.Table.{first}
use dmis_feature_branch.Store.{ItemBatch}
use dmis_feature_branch.Allocation.Validate.{
  has_expired, validate_found, validate_batch_allocation, batch_not_found,
}

-- The batch holds the item, is active and not expired, and has the quantity free once the package's
-- own allocation is set aside.
abbrev pub IsAllowed : ℕ → ℕ → ℕ → ℕ → ItemBatch → Type 0
IsAllowed today item_id allocated current b =
    (b.item_id ≡ item_id)
    × (b.status_code ≡ b'A')
    × (has_expired today b ≡ false)
    × (0 < allocated)
    × (allocated + b.reserved_qty ≤ b.usable_qty + current)

pub validate_found-IsAllowed :
    (today item_id allocated current : ℕ) (b : ItemBatch)
    → (validate_found today item_id allocated current b ≡ none)
      ↔ IsAllowed today item_id allocated current b
unfolding validate_found
validate_found-IsAllowed today item_id allocated current b = (λ h. ground arith, λ h. ground arith)

checked-IsAllowed :
    (today item_id allocated current batch_id : ℕ) (found : Option ItemBatch)
    → (elim found [
      | none ↦ some (batch_not_found batch_id)
      | some b ↦ validate_found today item_id allocated current b
    ]
        ≡ none)
      ↔ ((b : ItemBatch) × (found ≡ some b) × IsAllowed today item_id allocated current b)
checked-IsAllowed today item_id allocated current batch_id none =
    (λ h. ground arith, λ r. ground arith)
checked-IsAllowed today item_id allocated current batch_id (some b) = (
  λ h. (b, refl, (validate_found-IsAllowed today item_id allocated current b).0 h),
  λ r.
      let same : r.0 ≡ b = cc in
      let allowed : IsAllowed today item_id allocated current b =
        subst (IsAllowed today item_id allocated current) same r.2 in
      (validate_found-IsAllowed today item_id allocated current b).1 allowed,
)

-- An allocation passes exactly when the batch is on file, holds the item, is active and not
-- expired, the quantity is positive, and it fits in what is usable once the reservations of others
-- are set aside.
pub validate_batch_allocation-IsAllowed :
    (today : ℕ) (batches : List ItemBatch) (batch_id item_id allocated current : ℕ)
    → (validate_batch_allocation today batches batch_id item_id allocated current ≡ none) ↔ (
        (b : ItemBatch) × (first (λ x. x.batch_id == batch_id) batches ≡ some b)
        × IsAllowed today item_id allocated current b)
unfolding validate_batch_allocation
validate_batch_allocation-IsAllowed today batches batch_id item_id allocated current =
    checked-IsAllowed today item_id allocated current batch_id
      (first (λ x. x.batch_id == batch_id) batches)
