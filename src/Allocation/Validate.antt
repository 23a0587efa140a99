-- ===== src/Allocation/Validate.antt =====
-- `validate_batch_allocation`: may a package take this much of a batch, given what it already holds?
pub mod Laws
use dmis_feature_branch.Base.{
  ℕ, ◌+◌, Bool, true, false, Option, none, some, List, ◌==◌, ltb, leb, not, if◌then◌else◌,
}
use dmis_feature_branch.Base.Table.{first}
use dmis_feature_branch.Store.{ItemBatch}

pub data Invalid : Type 0 where
  batch_not_found : ℕ → Invalid
  wrong_item : ℕ → ℕ → Invalid
  not_available : ℕ → Invalid
  expired : ℕ → Invalid
  no_available_inventory : ℕ → Invalid
  only_available : ℕ → Invalid
  not_positive : Invalid

abbrev pub has_expired : ℕ → ItemBatch → Bool
has_expired today b = elim b.expiry_date [ none ↦ false | some d ↦ ltb d today ]

-- The test against `usable - (reserved - current)`, with both sides moved over the subtractions.
unfoldable pub validate_found : ℕ → ℕ → ℕ → ℕ → ItemBatch → Option Invalid
validate_found today item_id allocated current b =
    if not (b.item_id == item_id)
    then some (wrong_item b.batch_id item_id)
    else if not (b.status_code == b'A')
    then some (not_available b.batch_id)
    else if has_expired today b
    then some (expired b.batch_id)
    else if ltb (b.usable_qty + current) (allocated + b.reserved_qty)
    then if leb (b.usable_qty + current) b.reserved_qty
      then some (no_available_inventory b.batch_id)
      else some (only_available b.batch_id)
    else if allocated == 0
    then some not_positive
    else none

unfoldable pub validate_batch_allocation : ℕ → List ItemBatch → ℕ → ℕ → ℕ → ℕ → Option Invalid
unfolding validate_found
validate_batch_allocation today batches batch_id item_id allocated current =
    elim (first (λ b. b.batch_id == batch_id) batches) [
      | none ↦ some (batch_not_found batch_id)
      | some b ↦ validate_found today item_id allocated current b
    ]
