-- ===== src/ItemStatus/Tests.antt =====
-- The theorem on item statuses at a concrete input.
use dmis_feature_branch.Base.{ℕ, ◌≡◌, ◌⊎◌, refl, true, List, [], ◌∷◌}
use dmis_feature_branch.ItemStatus.{
  ItemStatusRow, candidates, compute_allowed_statuses, validate_status_transition,
}
use dmis_feature_branch.ItemStatus.Rules.{Fits, validate_status_transition-Fits}

abbrev partly_filled : List ItemStatusRow
partly_filled =
    record {
      status_code = b'P';
      status_desc = "PARTLY FILLED";
      item_qty_rule = "GT";
      active_flag = true;
    }
    ∷ []

-- 3 of 5 units have been allocated
validate_status_transition-Fits_example : ◌≡◌ {A = ℕ} b'R' b'P' ⊎ Fits b'P' 3 5
unfolding validate_status_transition compute_allowed_statuses candidates
validate_status_transition-Fits_example =
    validate_status_transition-Fits partly_filled b'R' b'P' 3 5 true refl
