-- ===== src/Reservation/Maps.antt =====
-- The allocations of a package as dicts, and the failures of the service.
use dmis_feature_branch.Base.{
  ℕ, Option, none, some, List, [], ◌∷◌, ltb, ◌==◌, if◌then◌else◌, filter,
}
use dmis_feature_branch.Base.Dict.{Dict, add, insert}
use dmis_feature_branch.Base.Table.{first}
use dmis_feature_branch.Base.Action.{Action}
use dmis_feature_branch.Store.{
  Db, ReliefPkg, ReliefPkgItem, BatchKey, StockKey, stock_of, key_eq, stock_eq,
}

pub data Failure : Type 0 where
  batch_not_found : BatchKey → Failure
  cannot_reserve : BatchKey → Failure
  no_active_inventory : StockKey → Failure
  exceeds_inventory : StockKey → Failure
  no_package : Failure
  insufficient_inventory : BatchKey → Failure
  package_not_found : ℕ → Failure
  cannot_cancel_status : ℕ → Failure
  inconsistent_reservation : BatchKey → Failure
  inventory_not_found : StockKey → Failure

abbrev pub Service : Type 0 → Type 0
Service A = Action Db Failure A

-- an entry of `new_allocations`
pub record Allocation : Type 0 where
  pub item_id : ℕ
  pub batch_id : ℕ
  pub warehouse_id : ℕ
  pub allocated_qty : ℕ

abbrev pub key_of_allocation : Allocation → BatchKey
key_of_allocation a = record {
  item_id = a.item_id;
  inventory_id = a.warehouse_id;
  batch_id = a.batch_id;
}

abbrev pub key_of_item : ReliefPkgItem → BatchKey
key_of_item p = record {
  item_id = p.item_id;
  inventory_id = p.fr_inventory_id;
  batch_id = p.batch_id;
}

-- `ReliefPkgItem.query.filter_by(reliefpkg_id=…).all()`
abbrev pub items_of : ℕ → Db → List ReliefPkgItem
items_of pkg s = filter (λ p. p.reliefpkg_id == pkg) s.pkg_items

-- `ReliefPkg.query.filter_by(reliefrqst_id=…).first()`
abbrev pub package_of : ℕ → Db → Option ReliefPkg
package_of rqst s = first (λ p. p.reliefrqst_id == rqst) s.packages

unfoldable pub items_map : List ReliefPkgItem → Dict BatchKey ℕ → Dict BatchKey ℕ
items_map [] d = d
items_map (p ∷ ps) d =
    items_map ps (if ltb 0 p.item_qty then insert (key_of_item p) p.item_qty d else d)

unfoldable pub get_current_batch_reservations : ℕ → Db → Dict BatchKey ℕ
unfolding items_map
get_current_batch_reservations rqst s = elim (package_of rqst s) [
  | none ↦ []
  | some pkg ↦ items_map (items_of pkg.reliefpkg_id s) []
]

unfoldable pub stock_items_map : List ReliefPkgItem → Dict StockKey ℕ → Dict StockKey ℕ
stock_items_map [] d = d
stock_items_map (p ∷ ps) d =
    stock_items_map ps
      (if ltb 0 p.item_qty then insert (stock_of (key_of_item p)) p.item_qty d else d)

unfoldable pub get_current_reservations : ℕ → Db → Dict StockKey ℕ
unfolding stock_items_map
get_current_reservations rqst s = elim (package_of rqst s) [
  | none ↦ []
  | some pkg ↦ stock_items_map (items_of pkg.reliefpkg_id s) []
]

-- `new_batch_reservations`
unfoldable pub allocations_map : List Allocation → Dict BatchKey ℕ → Dict BatchKey ℕ
allocations_map [] d = d
allocations_map (a ∷ as') d =
    allocations_map as'
      (if ltb 0 a.allocated_qty then insert (key_of_allocation a) a.allocated_qty d else d)

-- `affected_inventory`: the set of the pairs of some keys
unfoldable pub affected : List BatchKey → List StockKey → List StockKey
affected [] ss = ss
affected (k ∷ ks) ss = affected ks (add (stock_of k) ss)

-- `set(old.keys()) | set(new.keys())`, in one of the orders in which Python may run through it
unfoldable pub key_union : List BatchKey → List BatchKey → List BatchKey
key_union [] ks = ks
key_union (j ∷ js) ks = key_union js (add j ks)
