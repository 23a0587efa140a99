-- ===== src/Reservation/Coverage.antt =====
-- No operation of the service makes a batch hold more reservations than usable stock, however the
-- call ends.
use dmis_feature_branch.Base.{
  ℕ, ◌+◌, ◌-◌, ◌≤◌, ◌≡◌, inl, inr, Option, none, some, List, [], ◌∷◌, arith, ltb, Bool-cases,
  Option-cases, leb, ⊤, ◌==◌, String,
}
use dmis_feature_branch.Base.Dict.{Dict, get_or_zero, keys}
use dmis_feature_branch.Base.Table.{first, All-modify, All-modify-first}
use dmis_feature_branch.Base.Action.{for_each, for_each-keeps, >>=-keeps, Result, ok, err}
use dmis_feature_branch.Store.{Db, ItemBatch, BatchKey, StockKey, ReliefPkgItem, key_eq}
use dmis_feature_branch.Store.Query.{is_batch, set_reserved}
use dmis_feature_branch.Store.Invariant.{IsCovered, AllCovered}
use dmis_feature_branch.Reservation.Maps.{
  Failure, Allocation, key_of_item, key_union, get_current_batch_reservations, items_of, package_of,
}
use dmis_feature_branch.Reservation.Reserve.{
  write_reserved, apply_delta, missing_batch, reserve_key, recalculate, reserve_maps,
  reserve_inventory,
}
use dmis_feature_branch.Reservation.Release.{
  give_back, release_key, refresh, release_map, release_all_reservations,
}
use dmis_feature_branch.Reservation.Cancel.{
  cancel_batch, cancel_found, cancel_item, cancel_refresh, cancel_items, cancel_allocations,
  cancellable, cancel_relief_package, delete_package, rolled_back,
}
use dmis_feature_branch.Reservation.Commit.{
  deduct, deduct_batch, commit_item, resum, commit_items, commit_inventory,
}

write_reserved-AllCovered :
    (k : BatchKey) (q : ℕ) (s : Db) (b : ItemBatch)
    → first (is_batch k) s.batches ≡ some b
    → q ≤ b.usable_qty
    → AllCovered s
    → AllCovered (write_reserved k q s).1
unfolding write_reserved set_reserved
write_reserved-AllCovered k q s b e h a =
    All-modify-first IsCovered (is_batch k) (set_reserved q) s.batches b e h a

apply_delta-AllCovered :
    (k : BatchKey) (old new : ℕ) (s : Db) (b : ItemBatch)
    → first (is_batch k) s.batches ≡ some b
    → AllCovered s
    → AllCovered (apply_delta k old new b s).1
unfolding apply_delta
apply_delta-AllCovered k old new s b e a = elim (Bool-cases (ltb (b.reserved_qty + new) old)) [
  | inl t ↦ rw t (write_reserved-AllCovered k 0 s b e (omega arith) a)
  | inr t ↦ rw t (elim (Bool-cases (ltb (b.usable_qty + old) (b.reserved_qty + new))) [
    | inl u ↦ rw u a
    | inr u ↦ rw u (write_reserved-AllCovered k (b.reserved_qty + new - old) s b e (ground arith) a)
  ])
]

reserve_key-AllCovered :
    (olds news : Dict BatchKey ℕ) (k : BatchKey) (s : Db)
    → AllCovered s
    → AllCovered (reserve_key olds news k s).1
unfolding reserve_key missing_batch
reserve_key-AllCovered olds news k s a =
    let old = get_or_zero k olds in
    let new = get_or_zero k news in
    elim (Bool-cases (new == old)) [
      | inl t ↦ rw t a
      | inr t ↦ rw t (elim (Option-cases (first (is_batch k) s.batches)) [
        | inl e ↦ rw e (ground arith)
        | inr (b, e) ↦ rw e (apply_delta-AllCovered k old new s b e a)
      ])
    ]

recalculate-AllCovered : (k : StockKey) (s : Db) → AllCovered s → AllCovered (recalculate k s).1
unfolding recalculate
recalculate-AllCovered k s a = ground arith

reserve_maps-AllCovered :
    (olds news : Dict BatchKey ℕ) (s : Db) → AllCovered s → AllCovered (reserve_maps olds news s).1
unfolding reserve_maps
reserve_maps-AllCovered olds news s a =
    >>=-keeps AllCovered (for_each (reserve_key olds news) (key_union (keys olds) (keys news))) _ s
      (for_each-keeps AllCovered _ (reserve_key-AllCovered olds news) _ s a)
      (λ _ s' a'. for_each-keeps AllCovered _ recalculate-AllCovered _ s' a')

-- Reserving never takes a batch above its usable quantity, on success or on failure.
pub reserve_inventory-AllCovered :
    (rqst : ℕ) (allocations : List Allocation) (olds : Option (Dict BatchKey ℕ)) (s : Db)
    → AllCovered s
    → AllCovered (reserve_inventory rqst allocations olds s).1
unfolding reserve_inventory
reserve_inventory-AllCovered rqst allocations none s a = reserve_maps-AllCovered _ _ s a
reserve_inventory-AllCovered rqst allocations (some olds) s a = reserve_maps-AllCovered _ _ s a

release_key-AllCovered : (k : BatchKey × ℕ) (s : Db) → AllCovered s → AllCovered (release_key k s).1
unfolding release_key give_back
release_key-AllCovered (k, q) s a =
    All-modify IsCovered (is_batch k) (give_back q) s.batches (λ b _ h. omega arith) a

refresh-AllCovered : (k : StockKey) (s : Db) → AllCovered s → AllCovered (refresh k s).1
unfolding refresh
refresh-AllCovered k s a = a

pub release_all_reservations-AllCovered :
    (rqst : ℕ) (s : Db) → AllCovered s → AllCovered (release_all_reservations rqst s).1
unfolding release_all_reservations release_map
release_all_reservations-AllCovered rqst s a =
    >>=-keeps AllCovered (for_each release_key (get_current_batch_reservations rqst s)) _ s
      (for_each-keeps AllCovered _ release_key-AllCovered _ s a)
      (λ _ s' a'. for_each-keeps AllCovered _ refresh-AllCovered _ s' a')

deduct_batch-AllCovered :
    (k : BatchKey) (q : ℕ) (b : ItemBatch) (s : Db)
    → AllCovered s
    → AllCovered (deduct_batch k q b s).1
unfolding deduct_batch deduct
deduct_batch-AllCovered k q b s a = elim (Bool-cases (ltb b.usable_qty q)) [
  | inl t ↦ rw t a
  | inr t ↦ rw t (All-modify IsCovered (is_batch k) (deduct q) s.batches (λ b _ h. omega arith) a)
]

commit_item-AllCovered :
    (p : ReliefPkgItem) (s : Db) → AllCovered s → AllCovered (commit_item p s).1
unfolding commit_item
commit_item-AllCovered p s a = elim (Bool-cases (ltb 0 p.item_qty)) [
  | inl t ↦ rw t (elim (Option-cases (first (is_batch (key_of_item p)) s.batches)) [
    | inl e ↦ rw e a
    | inr (b, e) ↦ rw e (deduct_batch-AllCovered (key_of_item p) p.item_qty b s a)
  ])
  | inr t ↦ rw t a
]

resum-AllCovered : (k : StockKey) (s : Db) → AllCovered s → AllCovered (resum k s).1
unfolding resum
resum-AllCovered k s a = a

commit_items-AllCovered :
    (ps : List ReliefPkgItem) (s : Db) → AllCovered s → AllCovered (commit_items ps s).1
unfolding commit_items
commit_items-AllCovered ps s a =
    >>=-keeps AllCovered (for_each commit_item ps) _ s
      (for_each-keeps AllCovered _ commit_item-AllCovered _ s a)
      (λ _ s' a'. for_each-keeps AllCovered _ resum-AllCovered _ s' a')

-- Deducting a package's allocations leaves every batch covered: usable and reserved stock go down
-- together.
pub commit_inventory-AllCovered :
    (rqst : ℕ) (s : Db) → AllCovered s → AllCovered (commit_inventory rqst s).1
unfolding commit_inventory
commit_inventory-AllCovered rqst s a = elim (Option-cases (package_of rqst s)) [
  | inl e ↦ rw (e, commit_inventory) a
  | inr (pkg, e) ↦
      rw (e, commit_inventory) (commit_items-AllCovered (items_of pkg.reliefpkg_id s) s a)
]

rolled_back_keeps {ℓ} :
    (P : Db → Type ℓ) (t : Db) (r : Result Failure ⊤ × Db) → P t → P r.1 → P (rolled_back t r).1
rolled_back_keeps P t (ok a, s) h k = k
rolled_back_keeps P t (err e, s) h k = h

module _ (user : String) (now : ℕ) where
  cancel_found-AllCovered :
      (k : BatchKey) (q : ℕ) (b : ItemBatch) (s : Db)
      → AllCovered s
      → AllCovered (cancel_found user now k q b s).1
  unfolding cancel_found cancel_batch
  cancel_found-AllCovered k q b s a = elim (Bool-cases (ltb b.reserved_qty q)) [
    | inl t ↦ rw t a
    | inr t ↦ rw t (
        All-modify IsCovered (is_batch k) (cancel_batch user now q) s.batches (λ b _ h. omega arith)
          a)
  ]

  cancel_item-AllCovered :
      (p : ReliefPkgItem) (s : Db) → AllCovered s → AllCovered (cancel_item user now p s).1
  unfolding cancel_item
  cancel_item-AllCovered p s a = elim (Bool-cases (leb p.item_qty 0)) [
    | inl t ↦ rw t a
    | inr t ↦ rw t (elim (Option-cases (first (is_batch (key_of_item p)) s.batches)) [
      | inl e ↦ rw e a
      | inr (b, e) ↦ rw e (cancel_found-AllCovered (key_of_item p) p.item_qty b s a)
    ])
  ]

  cancel_refresh-AllCovered :
      (k : StockKey) (s : Db) → AllCovered s → AllCovered (cancel_refresh user now k s).1
  unfolding cancel_refresh
  cancel_refresh-AllCovered k s a = ground arith

  cancel_items-AllCovered :
      (ps : List ReliefPkgItem) (s : Db) → AllCovered s → AllCovered (cancel_items user now ps s).1
  unfolding cancel_items
  cancel_items-AllCovered ps s a =
      >>=-keeps AllCovered (for_each (cancel_item user now) ps) _ s
        (for_each-keeps AllCovered _ cancel_item-AllCovered _ s a)
        (λ _ s' a'. for_each-keeps AllCovered _ cancel_refresh-AllCovered _ s' a')

  cancel_allocations-AllCovered :
      (pkg : ℕ) (ps : List ReliefPkgItem) (s : Db)
      → AllCovered s
      → AllCovered (cancel_allocations user now pkg ps s).1
  unfolding cancel_allocations delete_package
  cancel_allocations-AllCovered pkg [] s a = a
  cancel_allocations-AllCovered pkg (p ∷ ps) s a = rolled_back_keeps AllCovered s _ a (
      >>=-keeps AllCovered (cancel_items user now (p ∷ ps)) _ s
        (cancel_items-AllCovered (p ∷ ps) s a) (λ _ s' a'. a'))

  -- Cancelling leaves every batch covered.
  pub cancel_relief_package-AllCovered :
      (pkg : ℕ) (s : Db) → AllCovered s → AllCovered (cancel_relief_package pkg user now s).1
  unfolding cancel_relief_package
  cancel_relief_package-AllCovered pkg s a =
      elim (Option-cases (first (λ p. p.reliefpkg_id == pkg) s.packages)) [
        | inl e ↦ rw (e, cancel_relief_package) a
        | inr (p, e) ↦
            rw (e, cancel_relief_package)
              (>>=-keeps AllCovered (cancellable p.status_code) _ s
                (cancellable_keeps p.status_code s a)
                (λ _ s' a'. cancel_allocations-AllCovered pkg (items_of pkg s) s' a'))
      ]
    where
      cancellable_keeps : (c : ℕ) (s : Db) → AllCovered s → AllCovered (cancellable c s).1
      cancellable_keeps c s a = ground arith
