-- ===== src/Dispatch/Plan.antt =====
-- The two plans of a dispatch: what the logistics officer reserved, and what the manager sends.
use dmis_feature_branch.Base.{ℕ, List, [], ◌∷◌, ltb, leb, if◌then◌else◌}
use dmis_feature_branch.Base.Dict.{Dict, insert, add_to}
use dmis_feature_branch.Base.Action.{Action}
use dmis_feature_branch.Store.{Db, ReliefPkgItem, BatchKey, StockKey, stock_of, key_eq, stock_eq}
use dmis_feature_branch.Reservation.Maps.{items_of, key_of_item}

-- the messages with which the service answers False
pub data DispatchFailure : Type 0 where
  package_not_found : ℕ → DispatchFailure
  package_modified : DispatchFailure
  already_dispatched : DispatchFailure
  wrong_status : ℕ → DispatchFailure
  request_not_found : DispatchFailure
  batch_not_found : BatchKey → DispatchFailure
  inconsistent_reservation : BatchKey → DispatchFailure
  inventory_not_found : StockKey → DispatchFailure
  inconsistent_inventory : StockKey → DispatchFailure
  insufficient_stock : BatchKey → DispatchFailure
  insufficient_inventory : StockKey → DispatchFailure

abbrev pub Dispatch : Type 0 → Type 0
Dispatch A = Action Db DispatchFailure A

-- a value of `lo_plan`
pub record LoEntry : Type 0 where
  pub lo_qty : ℕ
  pub uom_code : ℕ
  pub version_nbr : ℕ

-- an entry of `lm_plan`
pub record LmEntry : Type 0 where
  pub fr_inventory_id : ℕ
  pub batch_id : ℕ
  pub item_id : ℕ
  pub lm_qty : ℕ
  pub uom_code : ℕ

abbrev pub key_of_lm : LmEntry → BatchKey
key_of_lm a = record {
  item_id = a.item_id;
  inventory_id = a.fr_inventory_id;
  batch_id = a.batch_id;
}

abbrev pub lo_entry : ReliefPkgItem → LoEntry
lo_entry p = record { lo_qty = p.item_qty; uom_code = p.uom_code; version_nbr = p.version_nbr }

unfoldable pub lo_plan_of : List ReliefPkgItem → Dict BatchKey LoEntry → Dict BatchKey LoEntry
lo_plan_of [] d = d
lo_plan_of (p ∷ ps) d = lo_plan_of ps (insert (key_of_item p) (lo_entry p) d)

unfoldable pub get_lo_plan : ℕ → Db → Dict BatchKey LoEntry
unfolding lo_plan_of
get_lo_plan pkg s = lo_plan_of (items_of pkg s) []

-- `inventory_totals` when the loop over some keys and quantities has ended
unfoldable pub stock_totals : List (BatchKey × ℕ) → Dict StockKey ℕ → Dict StockKey ℕ
stock_totals [] d = d
stock_totals ((k, q) ∷ es) d = stock_totals es (if leb q 0 then d else add_to (stock_of k) q d)

abbrev pub lo_quantities : Dict BatchKey LoEntry → List (BatchKey × ℕ)
lo_quantities [] = []
lo_quantities ((k, e) ∷ d) = (k, e.lo_qty) ∷ lo_quantities d

abbrev pub lm_quantities : List LmEntry → List (BatchKey × ℕ)
lm_quantities [] = []
lm_quantities (a ∷ plan) = (key_of_lm a, a.lm_qty) ∷ lm_quantities plan

-- an element of the submitted form's "allocations", with its quantity as a number
unfoldable pub build_lm_plan_from_form : List LmEntry → List LmEntry
build_lm_plan_from_form [] = []
build_lm_plan_from_form (a ∷ form) =
    let rest = build_lm_plan_from_form form in if ltb 0 a.lm_qty then a ∷ rest else rest

abbrev pub lm_of_item : ReliefPkgItem → LmEntry
lm_of_item p = record {
  fr_inventory_id = p.fr_inventory_id;
  batch_id = p.batch_id;
  item_id = p.item_id;
  lm_qty = p.item_qty;
  uom_code = p.uom_code;
}

unfoldable pub lm_plan_of : List ReliefPkgItem → List LmEntry
lm_plan_of [] = []
lm_plan_of (p ∷ ps) =
    let rest = lm_plan_of ps in if ltb 0 p.item_qty then lm_of_item p ∷ rest else rest

unfoldable pub build_lm_plan_from_pkg_items : ℕ → Db → List LmEntry
unfolding lm_plan_of
build_lm_plan_from_pkg_items pkg s = lm_plan_of (items_of pkg s)
