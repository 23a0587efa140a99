-- ===== src/Dispatch/Consistency.antt =====
-- The dispatch as a whole keeps the two levels of stock in agreement.
use dmis_feature_branch.Base.{
  ℕ, ◌≡◌, sym, subst, inl, inr, String, List, ⊤, arith, Bool-cases, Option-cases, ◌==◌, ◌||◌,
}
use dmis_feature_branch.Base.Table.{first, first_holds}
use dmis_feature_branch.Base.Action.{
  Result, ok, err, modifies, ◌>>◌, >>=-Ends, Ends, Ends-imp, Ends-all,
}
use dmis_feature_branch.Store.{Db, ReliefPkg, ReliefPkgItem, ReliefRqst, ReliefRqstItem}
use dmis_feature_branch.Store.Invariant.{IsConsistent, IsUsableConsistent}
use dmis_feature_branch.Dispatch.Plan.{Dispatch, DispatchFailure, LmEntry, get_lo_plan}
use dmis_feature_branch.Dispatch.Steps.{
  undo_lo_reservations, overwrite_package_items, deplete_usable_stock,
}
use dmis_feature_branch.Dispatch.Submit.{
  dispatchable, dispatch_found, dispatch_package, submit_for_dispatch, update_dispatch_records,
  is_package, is_request,
}
use dmis_feature_branch.Dispatch.Levels.{
  Reserved, Usable, undo_lo_reservations-Reserved, undo_lo_reservations-Usable,
  deplete_usable_stock-Reserved, deplete_usable_stock-Usable,
}

-- What the two loops over stock take from `P` to `Q` and from `Q` to `R`, and no other table matters
-- to, the call takes from `P` to `R`.
module _ {ℓ κ μ} (user : String) (now : ℕ) (lm : List LmEntry) (pkg : ℕ) (P : Db → Type ℓ)
    (Q : Db → Type κ) (R : Db → Type μ)
    (undo : (s : Db) → P s → Ends Q (undo_lo_reservations user now (get_lo_plan pkg s) s))
    (take : (s : Db) → Q s → Ends R (deplete_usable_stock user now lm s))
    (items : (s : Db) (ps : List ReliefPkgItem) → Q s → Q (record s { pkg_items = ps }))
    (others : (s : Db) (ps : List ReliefPkg) (rs : List ReliefRqstItem) (qs : List ReliefRqst)
      → R s
      → R (record s { packages = ps; rqst_items = rs; requests = qs })) where
  dispatch_found-Ends :
      (p : ReliefPkg) (r : ReliefRqst) (s : Db)
      → p.reliefpkg_id ≡ pkg
      → P s
      → Ends R (dispatch_found user now p lm r s)
  unfolding dispatch_found overwrite_package_items update_dispatch_records
  dispatch_found-Ends p r s same h =
      let lo = get_lo_plan p.reliefpkg_id s in
      let rows = overwrite_package_items user now p.reliefpkg_id lm lo in
      let records = update_dispatch_records user now p r lm in
      let last : Dispatch ⊤ = deplete_usable_stock user now lm >> modifies records in
      let first_loop : Ends Q (undo_lo_reservations user now lo s) =
        subst (λ i. Ends Q (undo_lo_reservations user now (get_lo_plan i s) s)) (sym same)
          (undo s h) in
      >>=-Ends Q R (undo_lo_reservations user now lo) (λ _. modifies rows >> last) s first_loop
        (λ _ s' h'.
          >>=-Ends R R (deplete_usable_stock user now lm) (λ _. modifies records) (rows s')
            (take (rows s') (items s' _ h')) (λ _ s'' h''. others s'' _ _ _ h''))

  dispatch_package-Ends :
      (p : ReliefPkg) (s : Db)
      → p.reliefpkg_id ≡ pkg
      → P s
      → Ends R (dispatch_package user now lm p s)
  unfolding dispatch_package
  dispatch_package-Ends p s same h =
      elim (Option-cases (first (is_request p.reliefrqst_id) s.requests)) [
        | inl e ↦ rw (e, dispatch_package) tt
        | inr (r, e) ↦ rw (e, dispatch_package) (dispatch_found-Ends p r s same h)
      ]

  dispatchable-Ends :
      (version : ℕ) (p : ReliefPkg) (s : Db) → P s → Ends P (dispatchable version p s)
  unfolding dispatchable
  dispatchable-Ends version p s h = elim (Bool-cases (p.version_nbr == version)) [
    | inr t ↦ rw t tt
    | inl t ↦ rw t (elim (Bool-cases (p.status_code == b'D')) [
      | inl u ↦ rw u tt
      | inr u ↦ rw u (elim (Bool-cases (p.status_code == b'P' || p.status_code == b'V')) [
        | inl x ↦ rw x h
        | inr x ↦ rw x tt
      ])
    ])
  ]

  pub submit_for_dispatch-Ends :
      (version : ℕ) (s : Db) → P s → Ends R (submit_for_dispatch pkg lm user now version s)
  unfolding submit_for_dispatch
  submit_for_dispatch-Ends version s h = elim (Option-cases (first (is_package pkg) s.packages)) [
    | inl e ↦ rw (e, submit_for_dispatch) tt
    | inr (p, e) ↦
        rw (e, submit_for_dispatch)
          (>>=-Ends P R (dispatchable version p) (λ _. dispatch_package user now lm p) s
            (dispatchable-Ends version p s h)
            (λ _ s' h'.
              dispatch_package-Ends p s'
                (ground (arith, first_holds (is_package pkg) s.packages p e)) h'))
  ]

-- A dispatch that succeeds keeps the reserved quantity of each active warehouse row equal to the sum
-- of its batches' reservations.
submit_for_dispatch-IsConsistent :
    (pkg : ℕ) (lm : List LmEntry) (user : String) (now version : ℕ) (s : Db)
    → IsConsistent s
    → Ends IsConsistent (submit_for_dispatch pkg lm user now version s)
submit_for_dispatch-IsConsistent pkg lm user now version s h =
    Ends-imp Reserved IsConsistent (submit_for_dispatch pkg lm user now version s)
      (λ s' l k r found active. ground (arith, l k r found active))
      (submit_for_dispatch-Ends user now lm pkg Reserved Reserved Reserved
        (λ s'. undo_lo_reservations-Reserved user now (get_lo_plan pkg s') s')
        (λ s' l.
          Ends-all Reserved (deplete_usable_stock user now lm s')
            (deplete_usable_stock-Reserved user now lm s' l))
        (λ s' ps l. l) (λ s' ps rs qs l. l) version s
        (λ k r found active. ground (arith, h k r found active)))

-- The same for the usable quantities, from which the dispatch takes what the plan sends.
submit_for_dispatch-IsUsableConsistent :
    (pkg : ℕ) (lm : List LmEntry) (user : String) (now version : ℕ) (s : Db)
    → IsUsableConsistent s
    → Ends IsUsableConsistent (submit_for_dispatch pkg lm user now version s)
submit_for_dispatch-IsUsableConsistent pkg lm user now version s h =
    Ends-imp Usable IsUsableConsistent (submit_for_dispatch pkg lm user now version s)
      (λ s' l k r found active. ground (arith, l k r found active))
      (submit_for_dispatch-Ends user now lm pkg Usable Usable Usable
        (λ s' l.
          Ends-all Usable (undo_lo_reservations user now (get_lo_plan pkg s') s')
            (undo_lo_reservations-Usable user now (get_lo_plan pkg s') s' l))
        (deplete_usable_stock-Usable user now lm) (λ s' ps l. l) (λ s' ps rs qs l. l) version s
        (λ k r found active. ground (arith, h k r found active)))

both-Ends :
    (P Q : Db → Type 0) (r : Result DispatchFailure ⊤ × Db)
    → Ends P r
    → Ends Q r
    → Ends (λ s. P s × Q s) r
both-Ends P Q (ok a, s) p q = (p, q)
both-Ends P Q (err e, s) p q = tt

-- A dispatch that succeeds keeps the reserved and the usable quantity of each active warehouse row equal
-- to the sums of its batches' reserved and usable quantities.
pub submit_for_dispatch-Agree :
    (pkg : ℕ) (lm : List LmEntry) (user : String) (now version : ℕ) (s : Db)
    → IsConsistent s
    → IsUsableConsistent s
    → Ends
        (λ t. IsConsistent t × IsUsableConsistent t)
        (submit_for_dispatch pkg lm user now version s)
submit_for_dispatch-Agree pkg lm user now version s h k =
    both-Ends IsConsistent IsUsableConsistent (submit_for_dispatch pkg lm user now version s)
      (submit_for_dispatch-IsConsistent pkg lm user now version s h)
      (submit_for_dispatch-IsUsableConsistent pkg lm user now version s k)
