-- ===== src/Dispatch/Quantities.antt =====
-- What a dispatch does to each batch: it gives back the officer's reservation, and takes what the
-- manager sends.
use dmis_feature_branch.Base.{
  ℕ, ◌+◌, ◌≡◌, refl, sym, ◌∙◌, subst, inl, inr, String, List, [], ◌∷◌, arith, ltb, leb, Bool-cases,
  Option-cases,
}
use dmis_feature_branch.Base.Table.{first}
use dmis_feature_branch.Base.Action.{
  for_each, for_each-Ends, for_each-keeps, >>=-Ends, Ends, Ends-imp, Ends-all,
}
use dmis_feature_branch.Store.{Db, BatchKey, StockKey}
use dmis_feature_branch.Store.Query.{is_batch, is_stock}
use dmis_feature_branch.Dispatch.Plan.{
  LmEntry, lo_quantities, lm_quantities, stock_totals, get_lo_plan,
}
use dmis_feature_branch.Dispatch.Steps.{
  unreserve, deplete, undo_found, undo_batch, undo_stock_found, undo_stock, undo_lo_reservations,
  deplete_found, deplete_batch, deplete_stock_found, deplete_inventory, deplete_usable_stock,
}
use dmis_feature_branch.Dispatch.Submit.{submit_for_dispatch}
use dmis_feature_branch.Dispatch.Consistency.{submit_for_dispatch-Ends}
use dmis_feature_branch.Dispatch.Quantity.{
  moved_from, quantity_of, QuantityLeft, batch-quantity_of, of_batches, same-quantity_of,
}

module _ (user : String) (now : ℕ) (k : BatchKey) where
  abbrev pub reserved_of : Db → ℕ
  reserved_of = quantity_of (λ b. b.reserved_qty) k

  abbrev pub usable_of : Db → ℕ
  usable_of = quantity_of (λ b. b.usable_qty) k

  -- during C.3.3: the reservations that `es` still have to give back, and the usable quantity as it was
  abbrev Undoing : Db → List (BatchKey × ℕ) → List (BatchKey × ℕ) → Db → Type 0
  Undoing s0 all es s =
      QuantityLeft (λ b. b.reserved_qty) k (reserved_of s0) all es s × (usable_of s ≡ usable_of s0)

  undo_batch-Undoing :
      (s0 : Db) (all : List (BatchKey × ℕ)) (e : BatchKey × ℕ) (es : List (BatchKey × ℕ)) (s : Db)
      → Undoing s0 all (e ∷ es) s
      → Ends (Undoing s0 all es) (undo_batch user now e s)
  unfolding undo_batch undo_found unreserve
  undo_batch-Undoing s0 all (j, q) es s (h, same) = elim (Bool-cases (leb q 0)) [
    | inl t ↦ rw t (ground (arith, h), same)
    | inr t ↦ rw t (elim (Option-cases (first (is_batch j) s.batches)) [
      | inl e ↦ rw e tt
      | inr (b, e) ↦ rw e (elim (Bool-cases (ltb b.reserved_qty q)) [
        | inl u ↦ rw u tt
        | inr u ↦
            let f = unreserve user now q in
            rw u (
              omega (
                arith,
                h,
                batch-quantity_of (λ b. b.reserved_qty) k j q f (λ x y. y) s b e (ground arith),
              ),
              same-quantity_of (λ b. b.usable_qty) k j f (λ x y. y) (λ x. refl) s b e ∙ same,
            )
      ])
    ])
  ]

  -- The loops over warehouse rows leave the batches alone.
  undo_stock_batches : (e : StockKey × ℕ) (s : Db) → (undo_stock user now e s).1.batches ≡ s.batches
  unfolding undo_stock undo_stock_found
  undo_stock_batches (j, q) s = elim (Option-cases (first (is_stock j) s.inventories)) [
    | inl e ↦ rw (e, undo_stock) refl
    | inr (r, e) ↦
        rw (e, undo_stock)
          (elim (Bool-cases (ltb r.reserved_qty q)) [ inl u ↦ rw u refl | inr u ↦ rw u refl ])
  ]

  -- During C.3.5: the usable quantity that `es` still have to take, and the reservation as it was.
  abbrev Taking : ℕ → ℕ → List (BatchKey × ℕ) → List (BatchKey × ℕ) → Db → Type 0
  Taking reserved usable all es s =
      QuantityLeft (λ b. b.usable_qty) k usable all es s × (reserved_of s ≡ reserved)

  deplete_batch-Taking :
      (reserved usable : ℕ) (all : List (BatchKey × ℕ)) (e : BatchKey × ℕ)
      (es : List (BatchKey × ℕ)) (s : Db)
      → Taking reserved usable all (e ∷ es) s
      → Ends (Taking reserved usable all es) (deplete_batch user now e s)
  unfolding deplete_batch deplete_found deplete
  deplete_batch-Taking reserved usable all (j, q) es s (h, same) = elim (Bool-cases (leb q 0)) [
    | inl t ↦ rw t (ground (arith, h), same)
    | inr t ↦ rw t (elim (Option-cases (first (is_batch j) s.batches)) [
      | inl e ↦ rw e tt
      | inr (b, e) ↦ rw e (elim (Bool-cases (ltb b.usable_qty q)) [
        | inl u ↦ rw u tt
        | inr u ↦
            let f = deplete user now q in
            rw u (
              omega (
                arith,
                h,
                batch-quantity_of (λ b. b.usable_qty) k j q f (λ x y. y) s b e (ground arith),
              ),
              same-quantity_of (λ b. b.reserved_qty) k j f (λ x y. y) (λ x. refl) s b e ∙ same,
            )
      ])
    ])
  ]

  deplete_inventory_batches :
      (e : StockKey × ℕ) (s : Db) → (deplete_inventory user now e s).1.batches ≡ s.batches
  unfolding deplete_inventory deplete_stock_found
  deplete_inventory_batches (j, q) s = elim (Option-cases (first (is_stock j) s.inventories)) [
    | inl e ↦ rw (e, deplete_inventory) refl
    | inr (r, e) ↦
        rw (e, deplete_inventory)
          (elim (Bool-cases (ltb r.usable_qty q)) [ inl u ↦ rw u refl | inr u ↦ rw u refl ])
  ]

  -- What the dispatch of `pkg` with the plan `lm` has done to the batch.
  abbrev pub Sent : ℕ → List LmEntry → Db → Db → Type 0
  Sent pkg lm s0 s =
      (reserved_of s + moved_from k (lo_quantities (get_lo_plan pkg s0)) ≡ reserved_of s0)
      × (usable_of s + moved_from k (lm_quantities lm) ≡ usable_of s0)

  undo-Undoing :
      (pkg : ℕ) (s0 : Db)
      → Ends
          (Undoing s0 (lo_quantities (get_lo_plan pkg s0)) [])
          (undo_lo_reservations user now (get_lo_plan pkg s0) s0)
  unfolding undo_lo_reservations
  undo-Undoing pkg s0 =
      let es = lo_quantities (get_lo_plan pkg s0) in
      let P = Undoing s0 es in
      >>=-Ends (P []) (P []) (for_each (undo_batch user now) es) _ s0
        (for_each-Ends P (undo_batch user now) (undo_batch-Undoing s0 es) es s0 (refl, refl))
        (λ _ s h. Ends-all (P []) _ (
          for_each-keeps (P []) (undo_stock user now)
            (λ e s' h'.
              let t = (undo_stock user now e s').1 in
              (
                omega (
                  arith,
                  h'.0,
                  of_batches (λ b. b.reserved_qty) k t s' (undo_stock_batches e s'),
                ),
                of_batches (λ b. b.usable_qty) k t s' (undo_stock_batches e s') ∙ h'.1,
              ))
            (stock_totals es []) s h))

  take-Taking :
      (reserved usable : ℕ) (lm : List LmEntry) (s : Db)
      → reserved_of s ≡ reserved
      → usable_of s ≡ usable
      → Ends (Taking reserved usable (lm_quantities lm) []) (deplete_usable_stock user now lm s)
  unfolding deplete_usable_stock
  take-Taking reserved usable lm s r u =
      let es = lm_quantities lm in
      let P = Taking reserved usable es in
      >>=-Ends (P []) (P []) (for_each (deplete_batch user now) es) _ s
        (for_each-Ends P (deplete_batch user now) (deplete_batch-Taking reserved usable es) es s
          (rw u refl, r))
        (λ _ s' h. Ends-all (P []) _ (
          for_each-keeps (P []) (deplete_inventory user now)
            (λ e s'' h'.
              let t = (deplete_inventory user now e s'').1 in
              (
                omega (
                  arith,
                  h'.0,
                  of_batches (λ b. b.usable_qty) k t s'' (deplete_inventory_batches e s''),
                ),
                of_batches (λ b. b.reserved_qty) k t s'' (deplete_inventory_batches e s'') ∙ h'.1,
              ))
            (stock_totals es []) s' h))

  -- A dispatch that succeeds gives back exactly what the package's plan had reserved of each batch,
  -- and takes from its usable quantity exactly what the submitted plan sends of it.
  pub submit_for_dispatch-Sent :
      (pkg : ℕ) (lm : List LmEntry) (version : ℕ) (s : Db)
      → Ends (Sent pkg lm s) (submit_for_dispatch pkg lm user now version s)
  submit_for_dispatch-Sent pkg lm version s =
      submit_for_dispatch-Ends user now lm pkg (λ t. t ≡ s)
        (Undoing s (lo_quantities (get_lo_plan pkg s)) []) (Sent pkg lm s)
        (λ t e.
          subst
            (λ x.
              Ends (Undoing s (lo_quantities (get_lo_plan pkg s)) [])
                (undo_lo_reservations user now (get_lo_plan pkg x) x))
            (sym e) (undo-Undoing pkg s))
        (λ t h.
          Ends-imp (Taking (reserved_of t) (usable_of t) (lm_quantities lm) []) (Sent pkg lm s)
            (deplete_usable_stock user now lm t)
            (λ x y. (omega (arith, h.0, y.1), omega (arith, h.1, y.0)))
            (take-Taking (reserved_of t) (usable_of t) lm t refl refl))
        (λ t ps h. h) (λ t ps rs qs h. h) version s refl
