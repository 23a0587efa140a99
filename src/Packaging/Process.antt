-- ===== src/Packaging/Process.antt =====
-- `_process_allocations`: a loop over the request's items that writes the items and the package's rows,
-- and collects what is to be reserved.
use dmis_feature_branch.Base.{
  ℕ, ◌+◌, String, Bool, true, none, some, List, [], ◌∷◌, ◌++◌, ⊤, ltb, ◌==◌, ◌||◌, if◌then◌else◌,
  any, filter,
}
use dmis_feature_branch.Base.Dict.{Dict, insert, contains, keys}
use dmis_feature_branch.Base.Table.{modify, remove}
use dmis_feature_branch.Base.Action.{Result, ok, err, Action, pure, raise, for_each}
use dmis_feature_branch.Store.{
  Db, ItemBatch, ReliefPkg, ReliefPkgItem, ReliefRqstItem, BatchKey, key_eq,
}
use dmis_feature_branch.ItemStatus.{ItemStatusRow}
use dmis_feature_branch.Reservation.Maps.{Allocation, key_of_item, items_of, package_of}
use dmis_feature_branch.Dispatch.Steps.{is_pkg_item, is_rqst_item}
use dmis_feature_branch.Packaging.Form.{
  ItemForm, PackFailure, Taken, key_of_taken, settle_item, read_entries, total_taken, check_taken,
}

-- the tables that the loop writes, and its two collections
pub record Work : Type 0 where
  pub rqst_items : List ReliefRqstItem
  pub pkg_items : List ReliefPkgItem
  pub allocations : List Allocation
  pub processed : List BatchKey

-- `existing_allocations_map`, the zero quantities included
unfoldable pub existing_map : List ReliefPkgItem → Dict BatchKey ℕ → Dict BatchKey ℕ
existing_map [] d = d
existing_map (p ∷ ps) d = existing_map ps (insert (key_of_item p) p.item_qty d)

abbrev pub collect : ℕ → List Taken → List Allocation
collect item [] = []
collect item (t ∷ ts) =
    let rest = collect item ts in
    if ltb 0 t.qty
    then record {
      item_id = item;
      batch_id = t.batch_id;
      warehouse_id = t.inventory_id;
      allocated_qty = t.qty;
    }
      ∷ rest
    else rest

module _ (user : String) (now : ℕ) where
  unfoldable pub rewrite_row : Taken → ReliefPkgItem → ReliefPkgItem
  rewrite_row t p = record p {
    item_qty = t.qty;
    uom_code = t.uom_code;
    update_by_id = user;
    update_dtime = now;
    version_nbr = p.version_nbr + 1;
  }

  unfoldable pub new_row : ℕ → ℕ → Taken → ReliefPkgItem
  new_row pkg item t = record {
    reliefpkg_id = pkg;
    fr_inventory_id = t.inventory_id;
    batch_id = t.batch_id;
    item_id = item;
    item_qty = t.qty;
    uom_code = t.uom_code;
    update_by_id = user;
    update_dtime = now;
    version_nbr = 1;
  }

  -- the loop that updates or inserts a row for each entry; `existing` is `existing_records_map`
  unfoldable pub upsert_rows :
      ℕ → ℕ → List BatchKey → List Taken → List ReliefPkgItem → List ReliefPkgItem
  unfolding rewrite_row new_row
  upsert_rows pkg item existing [] ps = ps
  upsert_rows pkg item existing (t ∷ ts) ps = upsert_rows pkg item existing ts (
      if contains (key_of_taken item t) existing
      then modify (is_pkg_item pkg (key_of_taken item t)) (rewrite_row t) ps
      else ps ++ (new_row pkg item t ∷ []))

abbrev pub keys_of : ℕ → List Taken → List BatchKey
keys_of item [] = []
keys_of item (t ∷ ts) = key_of_taken item t ∷ keys_of item ts

-- the deletion of the rows that the form did not name
unfoldable pub delete_orphans :
    ℕ → List BatchKey → List BatchKey → List ReliefPkgItem → List ReliefPkgItem
delete_orphans pkg processed [] ps = ps
delete_orphans pkg processed (k ∷ ks) ps =
    delete_orphans pkg processed ks
      (if contains k processed then ps else remove (is_pkg_item pkg k) ps)

module _ (wording : ℕ → ℕ → String) (denied : String) (rows : List ItemStatusRow) (user : String)
    (now today : ℕ) (complete : Bool) (form : ℕ → ItemForm) where
  -- what one round writes once its tests have passed
  unfoldable pub write_item :
      ℕ → List BatchKey → ReliefRqstItem → List Taken → ℕ → Action Work PackFailure ⊤
  unfolding settle_item upsert_rows
  write_item pkg existing i ts status w = pure tt (record {
    rqst_items =
        modify (is_rqst_item i.reliefrqst_id i.item_id)
          (settle_item wording denied user now status (form i.item_id).reason (total_taken ts))
          w.rqst_items;
    pkg_items = upsert_rows user now pkg i.item_id existing ts w.pkg_items;
    allocations = w.allocations ++ collect i.item_id ts;
    processed = w.processed ++ keys_of i.item_id ts;
  })

  -- one round, with the entries as they were read
  unfoldable pub process_taken :
      ℕ
      → List BatchKey
      → ReliefRqstItem
      → Result PackFailure (List Taken)
      → Action Work PackFailure ⊤
  unfolding write_item
  process_taken pkg existing i (err e) w = raise e w
  process_taken pkg existing i (ok ts) w =
      let activity =
        any (λ k. k.item_id == i.item_id) existing || any (λ e. true) (form i.item_id).entries in
      elim (check_taken rows complete activity (form i.item_id) i (total_taken ts)) [
        | err e ↦ raise e w
        | ok status ↦ write_item pkg existing i ts status w
      ]

  unfoldable pub process_item :
      ℕ → List ItemBatch → Dict BatchKey ℕ → ReliefRqstItem → Action Work PackFailure ⊤
  unfolding process_taken
  process_item pkg batches existing i =
      process_taken pkg (keys existing) i
        (read_entries today batches existing i.item_id (form i.item_id).entries)

  -- a package for a request that has none; `id` is the key that the database assigns
  unfoldable pub new_package : ℕ → ℕ → ReliefPkg
  new_package id rqst = record {
    reliefpkg_id = id;
    reliefrqst_id = rqst;
    status_code = b'P';
    dispatch_dtime = none;
    verify_by_id = none;
    verify_dtime = none;
    received_by_id = none;
    received_dtime = none;
    create_by_id = user;
    update_by_id = user;
    update_dtime = now;
    version_nbr = 1;
  }

  unfoldable pub get_or_create : ℕ → ℕ → Db → ReliefPkg × Db
  unfolding new_package
  get_or_create id rqst s = elim (package_of rqst s) [
    | some p ↦ (p, s)
    | none ↦ (new_package id rqst, record s { packages = s.packages ++ (new_package id rqst ∷ []) })
  ]

  abbrev pub finish :
      Db
      → ℕ
      → Dict BatchKey ℕ
      → Result PackFailure ⊤ × Work
      → Result PackFailure (List Allocation × Dict BatchKey ℕ) × Db
  finish s pkg existing (err e, w) = (err e, s)
  finish s pkg existing (ok _, w) = (
    ok (w.allocations, existing),
    record s {
      rqst_items = w.rqst_items;
      pkg_items = delete_orphans pkg w.processed (keys existing) w.pkg_items;
    },
  )

  -- The answer is `new_allocations` and `_old_allocations`. After a failure the caller rolls back, so
  -- what the loop had written by then does not matter.
  unfoldable pub process_allocations :
      ℕ → ℕ → Action Db PackFailure (List Allocation × Dict BatchKey ℕ)
  unfolding existing_map process_item get_or_create delete_orphans
  process_allocations id rqst s0 =
      let (p, s) = get_or_create id rqst s0 in
      let existing = existing_map (items_of p.reliefpkg_id s) [] in
      finish s p.reliefpkg_id existing (
        for_each (process_item p.reliefpkg_id s.batches existing)
          (filter (λ i. i.reliefrqst_id == rqst) s.rqst_items)
          (record {
            rqst_items = s.rqst_items;
            pkg_items = s.pkg_items;
            allocations = [];
            processed = [];
          }))
