-- ===== src/Dispatch/Header.antt =====
-- When a dispatch succeeds, and what it writes on the package, the request and the request's items.
use dmis_feature_branch.Base.{
  ℕ, ◌+◌, ◌≡◌, refl, sym, ap, ◌∙◌, subst, inl, inr, ◌⊎◌, String, some, List, [], ⊤, arith,
  Bool-cases, Option-cases, ◌==◌, ◌||◌,
}
use dmis_feature_branch.Base.Dict.{Dict}
use dmis_feature_branch.Base.Table.{first, modify, first-modify_self, first_holds}
use dmis_feature_branch.Base.Action.{
  for_each, for_each-keeps, >>=-Ends, >>=-keeps, Ends, Ends-imp, Ends-all, ◌>>◌, modifies,
}
use dmis_feature_branch.Store.{Db, ReliefPkg, ReliefRqst, ReliefRqstItem, BatchKey, StockKey}
use dmis_feature_branch.Dispatch.Plan.{
  Dispatch, LoEntry, LmEntry, lo_quantities, lm_quantities, get_lo_plan,
}
use dmis_feature_branch.Dispatch.Steps.{
  id_eq, is_rqst_item, undo_found, undo_batch, undo_stock_found, undo_stock, undo_lo_reservations,
  overwrite_package_items, deplete_found, deplete_batch, deplete_stock_found, deplete_inventory,
  deplete_usable_stock,
}
use dmis_feature_branch.Dispatch.Submit.{
  is_package, is_request, mark_dispatched, mark_part_filled, item_totals, issue_items, dispatchable,
  dispatch_found, dispatch_package, submit_for_dispatch, update_dispatch_records,
}
use dmis_feature_branch.Dispatch.Issued.{sent_of, item_totals-sent_of, issue_items_found}

module _ (user : String) (now : ℕ) where
  -- the tables that the loops over stock leave alone
  abbrev Untouched : Db → Db → Type 0
  Untouched s0 s =
      (s.packages ≡ s0.packages) × (s.requests ≡ s0.requests) × (s.rqst_items ≡ s0.rqst_items)

  undo_batch-Untouched :
      (s0 : Db) (e : BatchKey × ℕ) (s : Db)
      → Untouched s0 s
      → Untouched s0 (undo_batch user now e s).1
  unfolding undo_batch undo_found
  undo_batch-Untouched s0 (k, q) s h = ground (arith, h)

  undo_stock-Untouched :
      (s0 : Db) (e : StockKey × ℕ) (s : Db)
      → Untouched s0 s
      → Untouched s0 (undo_stock user now e s).1
  unfolding undo_stock undo_stock_found
  undo_stock-Untouched s0 (k, q) s h = ground (arith, h)

  deplete_batch-Untouched :
      (s0 : Db) (e : BatchKey × ℕ) (s : Db)
      → Untouched s0 s
      → Untouched s0 (deplete_batch user now e s).1
  unfolding deplete_batch deplete_found
  deplete_batch-Untouched s0 (k, q) s h = ground (arith, h)

  deplete_inventory-Untouched :
      (s0 : Db) (e : StockKey × ℕ) (s : Db)
      → Untouched s0 s
      → Untouched s0 (deplete_inventory user now e s).1
  unfolding deplete_inventory deplete_stock_found
  deplete_inventory-Untouched s0 (k, q) s h = ground (arith, h)

  undo-Untouched :
      (lo : Dict BatchKey LoEntry) (s0 s : Db)
      → Untouched s0 s
      → Untouched s0 (undo_lo_reservations user now lo s).1
  unfolding undo_lo_reservations
  undo-Untouched lo s0 s h =
      >>=-keeps (Untouched s0) (for_each (undo_batch user now) (lo_quantities lo)) _ s
        (for_each-keeps (Untouched s0) _ (undo_batch-Untouched s0) _ s h)
        (λ _ s' h'. for_each-keeps (Untouched s0) _ (undo_stock-Untouched s0) _ s' h')

  take-Untouched :
      (lm : List LmEntry) (s0 s : Db)
      → Untouched s0 s
      → Untouched s0 (deplete_usable_stock user now lm s).1
  unfolding deplete_usable_stock
  take-Untouched lm s0 s h =
      >>=-keeps (Untouched s0) (for_each (deplete_batch user now) (lm_quantities lm)) _ s
        (for_each-keeps (Untouched s0) _ (deplete_batch-Untouched s0) _ s h)
        (λ _ s' h'. for_each-keeps (Untouched s0) _ (deplete_inventory-Untouched s0) _ s' h')

module _ (user : String) (now : ℕ) (pkg : ℕ) (lm : List LmEntry) (version : ℕ) (s : Db) where
  -- The package was pending or verified, at the version that the caller saw.
  abbrev pub IsDispatchable : ReliefPkg → Type 0
  IsDispatchable p =
      (first (is_package pkg) s.packages ≡ some p)
      × (p.version_nbr ≡ version)
      × ((p.status_code ≡ b'P') ⊎ (p.status_code ≡ b'V'))

  -- Each item of the request has been issued what the plan sends of it.
  abbrev pub AreIssued : ℕ → Db → Type 0
  AreIssued rqst t =
      (item : ℕ) (i : ReliefRqstItem)
      → first (is_rqst_item rqst item) s.rqst_items ≡ some i
      → (i' : ReliefRqstItem) × (first (is_rqst_item rqst item) t.rqst_items ≡ some i')
        × (i'.issue_qty ≡ i.issue_qty + sent_of item lm)

  -- The package p' is p, dispatched by the user now, with the next version.
  abbrev pub IsSent : ReliefPkg → ReliefPkg → Type 0
  IsSent p p' =
      (p'.status_code ≡ b'D')
      × (p'.dispatch_dtime ≡ some now)
      × (p'.verify_by_id ≡ some user)
      × (p'.update_by_id ≡ user)
      × (p'.version_nbr ≡ p.version_nbr + 1)

  -- The request r' is r, part filled (status 5) by the user now, with the next version.
  abbrev pub IsPartFilled : ReliefRqst → ReliefRqst → Type 0
  IsPartFilled r r' =
      (r'.status_code ≡ 5)
      × (r'.action_by_id ≡ some user)
      × (r'.action_dtime ≡ some now)
      × (r'.version_nbr ≡ r.version_nbr + 1)

  abbrev pub IsDispatched : ReliefPkg → ReliefRqst → Db → Type 0
  IsDispatched p r t =
      (first (is_request p.reliefrqst_id) s.requests ≡ some r)
      × ((p' : ReliefPkg) × (first (is_package pkg) t.packages ≡ some p') × IsSent p p')
      × ((r' : ReliefRqst) × (first (is_request p.reliefrqst_id) t.requests ≡ some r')
          × IsPartFilled r r')
      × AreIssued p.reliefrqst_id t

  records-IsDispatched :
      (p : ReliefPkg) (r : ReliefRqst) (t : Db)
      → first (is_package pkg) s.packages ≡ some p
      → first (is_request p.reliefrqst_id) s.requests ≡ some r
      → Untouched user now s t
      → IsDispatched p r (update_dispatch_records user now p r lm t)
  unfolding update_dispatch_records mark_dispatched mark_part_filled
  records-IsDispatched p r t found asked (packages, requests, items) =
      let same_pkg : p.reliefpkg_id ≡ pkg =
        ground (arith, first_holds (is_package pkg) s.packages p found) in
      let same_rqst : r.reliefrqst_id ≡ p.reliefrqst_id =
        ground (arith, first_holds (is_request p.reliefrqst_id) s.requests r asked) in
      (
        asked,
        (
          mark_dispatched user now p,
          subst
              (λ i.
                first (is_package pkg) (modify (is_package i) (mark_dispatched user now) t.packages)
                ≡ some (mark_dispatched user now p))
              (sym same_pkg)
              (first-modify_self (is_package pkg) (mark_dispatched user now) t.packages p
                (ap (first (is_package pkg)) packages ∙ found) (ground arith)),
          (refl, refl, refl, refl, refl),
        ),
        (
          mark_part_filled user now r,
          subst
              (λ i.
                first (is_request p.reliefrqst_id)
                  (modify (is_request i) (mark_part_filled user now) t.requests)
                ≡ some (mark_part_filled user now r))
              (sym same_rqst)
              (first-modify_self (is_request p.reliefrqst_id) (mark_part_filled user now) t.requests
                r (ap (first (is_request p.reliefrqst_id)) requests ∙ asked) (ground arith)),
          (refl, refl, refl, refl),
        ),
        λ item i e.
            let (i', present, total') =
              issue_items_found user now p.reliefrqst_id item (item_totals lm []) t.rqst_items i
                (ap (first (is_rqst_item p.reliefrqst_id item)) items ∙ e) in
            (
              i',
              subst
                  (λ x.
                    first (is_rqst_item p.reliefrqst_id item)
                      (issue_items user now x (item_totals lm []) t.rqst_items)
                    ≡ some i')
                  (sym same_rqst) present,
              omega (arith, total', item_totals-sent_of item lm []),
            ),
      )

  dispatch_found-IsDispatched :
      (p : ReliefPkg) (r : ReliefRqst)
      → first (is_package pkg) s.packages ≡ some p
      → first (is_request p.reliefrqst_id) s.requests ≡ some r
      → Ends (IsDispatched p r) (dispatch_found user now p lm r s)
  unfolding dispatch_found overwrite_package_items
  dispatch_found-IsDispatched p r found asked =
      let lo = get_lo_plan p.reliefpkg_id s in
      let rows = overwrite_package_items user now p.reliefpkg_id lm lo in
      let records = update_dispatch_records user now p r lm in
      let last : Dispatch ⊤ = deplete_usable_stock user now lm >> modifies records in
      let Same = Untouched user now s in
      >>=-Ends Same (IsDispatched p r) (undo_lo_reservations user now lo)
        (λ _. modifies rows >> last) s
        (Ends-all Same _ (undo-Untouched user now lo s s (refl, refl, refl)))
        (λ _ s' h.
          >>=-Ends Same (IsDispatched p r) (deplete_usable_stock user now lm)
            (λ _. modifies records) (rows s')
            (Ends-all Same _ (take-Untouched user now lm s (rows s') h))
            (λ _ s'' h'. records-IsDispatched p r s'' found asked h'))

  -- what a dispatch that succeeds started from and ended in
  abbrev pub Dispatched : Db → Type 0
  Dispatched t = (p : ReliefPkg) × (r : ReliefRqst) × IsDispatchable p × IsDispatched p r t

  dispatch_package-Dispatched :
      (p : ReliefPkg) → IsDispatchable p → Ends Dispatched (dispatch_package user now lm p s)
  unfolding dispatch_package
  dispatch_package-Dispatched p ready =
      elim (Option-cases (first (is_request p.reliefrqst_id) s.requests)) [
        | inl e ↦ rw (e, dispatch_package) tt
        | inr (r, e) ↦
            rw (e, dispatch_package)
              (Ends-imp (IsDispatched p r) Dispatched (dispatch_found user now p lm r s)
                (λ t h. (p, r, ready, h)) (dispatch_found-IsDispatched p r ready.0 e))
      ]

  -- A dispatch succeeds only for a package that is pending or verified and still has the version that
  -- the caller saw, and whose request exists; the package then has the status D under the user's
  -- name, the time of the call and the next version, the request is part filled (status 5) by the user
  -- at the next version, and each of its items has been issued in addition exactly what the plan
  -- sends of it.
  pub submit_for_dispatch-Dispatched :
      Ends Dispatched (submit_for_dispatch pkg lm user now version s)
  unfolding submit_for_dispatch dispatchable
  submit_for_dispatch-Dispatched = elim (Option-cases (first (is_package pkg) s.packages)) [
    | inl e ↦ rw (e, submit_for_dispatch) tt
    | inr (p, e) ↦
        rw (e, submit_for_dispatch)
          (elim (Bool-cases (p.version_nbr == version)) [
            | inr t ↦ rw t tt
            | inl t ↦ rw t (elim (Bool-cases (p.status_code == b'D')) [
              | inl u ↦ rw u tt
              | inr u ↦ rw u (elim (Bool-cases (p.status_code == b'P' || p.status_code == b'V')) [
                | inl x ↦ rw x (dispatch_package-Dispatched p (e, ground arith, ground arith))
                | inr x ↦ rw x tt
              ])
            ])
          ])
  ]
