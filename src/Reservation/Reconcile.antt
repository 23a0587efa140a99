-- ===== src/Reservation/Reconcile.antt =====
-- The same for `release_all_reservations`, `commit_inventory` and `cancel_relief_package`: on success
-- the warehouse level agrees with the batches again.
use dmis_feature_branch.Base.{
  ℕ, ◌≡◌, refl, inl, inr, List, [], ◌∷◌, arith, ltb, leb, All, String, ⊤, ◌==◌, ◌||◌, Bool-cases,
  Option-cases, true,
}
use dmis_feature_branch.Base.Dict.{Dict, keys, contains, contains-add}
use dmis_feature_branch.Base.Table.{first}
use dmis_feature_branch.Base.Action.{for_each, for_each-All, >>=-Ends, Ends, Result, ok, err}
use dmis_feature_branch.Store.{
  Db, ReliefPkgItem, BatchKey, StockKey, stock_of, stock_eq, stock_beq_iff,
}
use dmis_feature_branch.Store.Query.{
  is_batch, is_stock, is_active_stock, reserved_total, usable_total,
}
use dmis_feature_branch.Store.Invariant.{IsConsistent}
use dmis_feature_branch.Reservation.Maps.{
  Failure, key_of_item, affected, get_current_batch_reservations, items_of, package_of,
}
use dmis_feature_branch.Reservation.Reserve.{set_stock_reserved}
use dmis_feature_branch.Reservation.Release.{
  give_back, release_key, refresh, release_map, release_all_reservations,
}
use dmis_feature_branch.Reservation.Commit.{
  deduct, deduct_batch, commit_item, resum, set_totals, commit_items, commit_inventory, affected_by,
}
use dmis_feature_branch.Reservation.Cancel.{
  cancel_batch, cancel_stock, cancel_found, cancel_item, cancel_refresh, cancel_items,
  cancel_allocations, cancellable, cancel_relief_package, delete_package, rolled_back,
}
use dmis_feature_branch.Reservation.Recount.{
  AgreesExcept, modify-AgreesExcept, modify_batch-AgreesExcept, stock_loop, affected-contains,
}

All-keys {κ} : (P : BatchKey → Type κ) (d : Dict BatchKey ℕ) → All P (keys d) → All (λ e. P e.0) d
All-keys P [] a = tt
All-keys P ((k, v) ∷ d) a = (a.0, All-keys P d a.1)

refresh-AgreesExcept :
    (k : StockKey) (ks : List StockKey) (s : Db)
    → AgreesExcept (k ∷ ks) s
    → Ends (AgreesExcept ks) (refresh k s)
unfolding refresh set_stock_reserved
refresh-AgreesExcept k ks s a =
    modify-AgreesExcept k (is_active_stock k) (set_stock_reserved (reserved_total k s.batches))
      (λ r t. ground arith) ks s (λ r. refl) (λ r t u. ground arith) a

-- Releasing keeps the two levels in agreement.
pub release_all_reservations-IsConsistent :
    (rqst : ℕ) (s : Db) → IsConsistent s → Ends IsConsistent (release_all_reservations rqst s)
unfolding release_all_reservations release_map release_key give_back
release_all_reservations-IsConsistent rqst s c =
    let held = get_current_batch_reservations rqst s in
    let aff = affected (keys held) [] in
    >>=-Ends (AgreesExcept aff) IsConsistent (for_each release_key held) _ s
      (for_each-All (λ e. contains (stock_of e.0) aff ≡ true) (AgreesExcept aff) release_key
        (λ e s h a. modify_batch-AgreesExcept aff e.0 (give_back e.1) s (λ b t. t) h a) held s
        (All-keys _ held (affected-contains (keys held) [])) (λ k _. c k))
      (λ _ s' a. stock_loop refresh refresh-AgreesExcept aff s' a)

resum-AgreesExcept :
    (k : StockKey) (ks : List StockKey) (s : Db)
    → AgreesExcept (k ∷ ks) s
    → Ends (AgreesExcept ks) (resum k s)
unfolding resum set_totals
resum-AgreesExcept k ks s a =
    modify-AgreesExcept k (is_stock k)
      (set_totals (usable_total k s.batches) (reserved_total k s.batches)) (λ r t. (t, t)) ks s
      (λ r. refl) (λ r t u. t) a

affected_by_old :
    (j : StockKey) (ps : List ReliefPkgItem) (ss : List StockKey)
    → contains j ss ≡ true
    → contains j (affected_by ps ss) ≡ true
unfolding affected_by
affected_by_old j [] ss h = h
affected_by_old j (p ∷ ps) ss h =
    affected_by_old j ps _ (ground (arith, contains-add (stock_of (key_of_item p)) j ss))

-- the item and warehouse of a package item with a positive quantity is among the affected
abbrev IsSeen : List StockKey → ReliefPkgItem → Type 0
IsSeen aff p = ltb 0 p.item_qty ≡ true → contains (stock_of (key_of_item p)) aff ≡ true

affected_by-IsSeen :
    (ps : List ReliefPkgItem) (ss : List StockKey) → All (IsSeen (affected_by ps ss)) ps
unfolding affected_by
affected_by-IsSeen [] ss = tt
affected_by-IsSeen (p ∷ ps) ss = (
  (λ t. affected_by_old (stock_of (key_of_item p)) ps _ (
      ground (
        arith,
        contains-add (stock_of (key_of_item p)) (stock_of (key_of_item p)) ss,
        stock_beq_iff (stock_of (key_of_item p)) (stock_of (key_of_item p)),
      ))),
  affected_by-IsSeen ps _,
)

commit_item-AgreesExcept :
    (aff : List StockKey) (p : ReliefPkgItem) (s : Db)
    → IsSeen aff p
    → AgreesExcept aff s
    → Ends (AgreesExcept aff) (commit_item p s)
unfolding commit_item deduct_batch deduct
commit_item-AgreesExcept aff p s h a = elim (Bool-cases (ltb 0 p.item_qty)) [
  | inl t ↦ rw t (elim (Option-cases (first (is_batch (key_of_item p)) s.batches)) [
    | inl e ↦ rw e tt
    | inr (b, e) ↦ rw e (elim (Bool-cases (ltb b.usable_qty p.item_qty)) [
      | inl u ↦ rw u tt
      | inr u ↦
          rw u
            (modify_batch-AgreesExcept aff (key_of_item p) (deduct p.item_qty) s (λ b t. t) (h t) a)
    ])
  ])
  | inr t ↦ rw t a
]

commit_items-IsConsistent :
    (ps : List ReliefPkgItem) (s : Db) → IsConsistent s → Ends IsConsistent (commit_items ps s)
unfolding commit_items
commit_items-IsConsistent ps s c =
    let aff = affected_by ps [] in
    >>=-Ends (AgreesExcept aff) IsConsistent (for_each commit_item ps) _ s
      (for_each-All (IsSeen aff) (AgreesExcept aff) commit_item (commit_item-AgreesExcept aff) ps s
        (affected_by-IsSeen ps []) (λ k _. c k))
      (λ _ s' a. stock_loop resum resum-AgreesExcept aff s' a)

-- Committing keeps the two levels in agreement.
pub commit_inventory-IsConsistent :
    (rqst : ℕ) (s : Db) → IsConsistent s → Ends IsConsistent (commit_inventory rqst s)
unfolding commit_inventory
commit_inventory-IsConsistent rqst s c = elim (Option-cases (package_of rqst s)) [
  | inl e ↦ rw (e, commit_inventory) tt
  | inr (pkg, e) ↦
      rw (e, commit_inventory) (commit_items-IsConsistent (items_of pkg.reliefpkg_id s) s c)
]

module _ (user : String) (now : ℕ) where
  cancel_item-AgreesExcept :
      (aff : List StockKey) (p : ReliefPkgItem) (s : Db)
      → IsSeen aff p
      → AgreesExcept aff s
      → Ends (AgreesExcept aff) (cancel_item user now p s)
  unfolding cancel_item cancel_found cancel_batch
  cancel_item-AgreesExcept aff p s h a = elim (Bool-cases (leb p.item_qty 0)) [
    | inl t ↦ rw t a
    | inr t ↦ rw t (elim (Option-cases (first (is_batch (key_of_item p)) s.batches)) [
      | inl e ↦ rw e a
      | inr (b, e) ↦ rw e (elim (Bool-cases (ltb b.reserved_qty p.item_qty)) [
        | inl u ↦ rw u tt
        | inr u ↦ rw u (
            modify_batch-AgreesExcept aff (key_of_item p) (cancel_batch user now p.item_qty) s
              (λ b t. t) (h (ground arith)) a)
      ])
    ])
  ]

  cancel_refresh-AgreesExcept :
      (k : StockKey) (ks : List StockKey) (s : Db)
      → AgreesExcept (k ∷ ks) s
      → Ends (AgreesExcept ks) (cancel_refresh user now k s)
  unfolding cancel_refresh cancel_stock
  cancel_refresh-AgreesExcept k ks s a = elim (Option-cases (first (is_stock k) s.inventories)) [
    | inl e ↦ rw (e, cancel_refresh) tt
    | inr (r, e) ↦
        rw (e, cancel_refresh)
          (modify-AgreesExcept k (is_stock k) (cancel_stock user now (reserved_total k s.batches))
            (λ r t. (t, t)) ks s (λ r. refl) (λ r t u. t) a)
  ]

  cancel_items-IsConsistent :
      (ps : List ReliefPkgItem) (s : Db)
      → IsConsistent s
      → Ends IsConsistent (cancel_items user now ps s)
  unfolding cancel_items
  cancel_items-IsConsistent ps s c =
      let aff = affected_by ps [] in
      >>=-Ends (AgreesExcept aff) IsConsistent (for_each (cancel_item user now) ps) _ s
        (for_each-All (IsSeen aff) (AgreesExcept aff) (cancel_item user now)
          (cancel_item-AgreesExcept aff) ps s (affected_by-IsSeen ps []) (λ k _. c k))
        (λ _ s' a. stock_loop (cancel_refresh user now) cancel_refresh-AgreesExcept aff s' a)

  cancel_allocations-IsConsistent :
      (pkg : ℕ) (ps : List ReliefPkgItem) (s : Db)
      → IsConsistent s
      → Ends IsConsistent (cancel_allocations user now pkg ps s)
  unfolding cancel_allocations delete_package
  cancel_allocations-IsConsistent pkg [] s c = c
  cancel_allocations-IsConsistent pkg (p ∷ ps) s c = rolled_back_ends _ (
      >>=-Ends IsConsistent IsConsistent (cancel_items user now (p ∷ ps)) _ s
        (cancel_items-IsConsistent (p ∷ ps) s c) (λ _ s' c'. c'))
    where
      rolled_back_ends :
          (r : Result Failure ⊤ × Db) → Ends IsConsistent r → Ends IsConsistent (rolled_back s r)
      rolled_back_ends (ok a, s) c = c
      rolled_back_ends (err e, s) c = tt

  -- Cancelling keeps the two levels in agreement.
  pub cancel_relief_package-IsConsistent :
      (pkg : ℕ) (s : Db) → IsConsistent s → Ends IsConsistent (cancel_relief_package pkg user now s)
  unfolding cancel_relief_package cancellable
  cancel_relief_package-IsConsistent pkg s c =
      elim (Option-cases (first (λ p. p.reliefpkg_id == pkg) s.packages)) [
        | inl e ↦ rw (e, cancel_relief_package) tt
        | inr (p, e) ↦
            rw (e, cancel_relief_package)
              (elim (Bool-cases (p.status_code == b'P' || p.status_code == b'D')) [
                | inl t ↦ rw t (cancel_allocations-IsConsistent pkg (items_of pkg s) s c)
                | inr t ↦ rw t tt
              ])
      ]
