-- ===== src/Packaging/Saved.antt =====
-- What cancelling a preparation does to the stock.
use dmis_feature_branch.Base.{
  ℕ, ◌≡◌, refl, ap, ◌∙◌, inl, inr, some, List, [], ◌∷◌, ◌==◌, not, filter, arith, Option-cases,
}
use dmis_feature_branch.Base.Action.{for_each}
use dmis_feature_branch.Store.{Db, ReliefPkg, ReliefPkgItem}
use dmis_feature_branch.Reservation.Maps.{
  package_of, items_of, items_map, get_current_batch_reservations, affected,
}
use dmis_feature_branch.Reservation.Release.{release_map, release_all_reservations}
use dmis_feature_branch.Packaging.Draft.{delete_items, cancel_preparation}

-- no row of a package is left once they are deleted
filter-none :
    (pkg : ℕ) (ps : List ReliefPkgItem)
    → filter (λ p. p.reliefpkg_id == pkg) (filter (λ p. not (p.reliefpkg_id == pkg)) ps) ≡ []
filter-none pkg [] = refl
filter-none pkg (p ∷ ps) = ground (arith, filter-none pkg ps)

delete_items_held :
    (rqst : ℕ) (s : Db) → get_current_batch_reservations rqst (delete_items rqst s) ≡ []
unfolding get_current_batch_reservations delete_items items_map
delete_items_held rqst s = elim (Option-cases (package_of rqst s)) [
  | inl e ↦ rw (e, delete_items) (rw (e, get_current_batch_reservations) refl)
  | inr (p, e) ↦
      rw (e, delete_items)
        (rw (e, get_current_batch_reservations)
          (ap (λ ps. items_map ps []) (filter-none p.reliefpkg_id s.pkg_items)))
]

release_nothing :
    (rqst : ℕ) (s : Db)
    → get_current_batch_reservations rqst s ≡ []
    → (release_all_reservations rqst s).1 ≡ s
unfolding release_all_reservations release_map for_each affected
release_nothing rqst s e = rw (e, release_all_reservations) refl

-- Cancelling a preparation deletes the package's items, and leaves every batch and every warehouse row
-- as it was: what the package had reserved stays reserved.
pub cancel_preparation_stock :
    (rqst : ℕ) (s : Db)
    → ((p : ReliefPkg)
        → package_of rqst s ≡ some p
        → items_of p.reliefpkg_id (cancel_preparation rqst s) ≡ [])
      × ((cancel_preparation rqst s).batches ≡ s.batches)
      × ((cancel_preparation rqst s).inventories ≡ s.inventories)
unfolding cancel_preparation delete_items
cancel_preparation_stock rqst s =
    let same = release_nothing rqst (delete_items rqst s) (delete_items_held rqst s) in
    (
      λ p e.
          ap (items_of p.reliefpkg_id) same
          ∙ rw (e, delete_items) (filter-none p.reliefpkg_id s.pkg_items),
      ap (λ t. t.batches) same ∙ ground arith,
      ap (λ t. t.inventories) same ∙ ground arith,
    )
