-- ===== src/Dispatch/Levels.antt =====
-- A dispatch keeps the warehouse level in agreement with the batches, for the reserved and for the
-- usable quantities.
use dmis_feature_branch.Base.{
  ℕ, refl, inl, inr, String, List, [], ◌∷◌, arith, ltb, leb, Bool-cases, Option-cases,
}
use dmis_feature_branch.Base.Dict.{Dict}
use dmis_feature_branch.Base.Table.{first}
use dmis_feature_branch.Base.Action.{
  for_each, for_each-Ends, >>=-Ends, Ends, Ends-imp, for_each-keeps, >>=-keeps,
}
use dmis_feature_branch.Store.{Db, ItemBatch, Inventory, BatchKey, StockKey}
use dmis_feature_branch.Store.Query.{is_batch, is_stock}
use dmis_feature_branch.Dispatch.Plan.{LoEntry, LmEntry, lo_quantities, lm_quantities, stock_totals}
use dmis_feature_branch.Dispatch.Steps.{
  unreserve, unreserve_stock, deplete, deplete_stock, undo_found, undo_batch, undo_stock_found,
  undo_stock, undo_lo_reservations, deplete_found, deplete_batch, deplete_stock_found,
  deplete_inventory, deplete_usable_stock,
}
use dmis_feature_branch.Dispatch.Owed.{
  BatchesLeft, StockLeft, Level, batch-BatchesLeft, stock-StockLeft, batch-Level, stock-Level,
  Level-BatchesLeft, BatchesLeft-StockLeft, StockLeft-Level,
}

-- the two quantities that a level can be about
abbrev pub Reserved : Db → Type 0
Reserved = Level (λ b. b.reserved_qty) (λ r. r.reserved_qty)

abbrev pub Usable : Db → Type 0
Usable = Level (λ b. b.usable_qty) (λ r. r.usable_qty)

module _ (user : String) (now : ℕ) where
  undo_batch-Left :
      (all : List (BatchKey × ℕ)) (e : BatchKey × ℕ) (es : List (BatchKey × ℕ)) (s : Db)
      → BatchesLeft (λ b. b.reserved_qty) (λ r. r.reserved_qty) all (e ∷ es) s
      → Ends
          (BatchesLeft (λ b. b.reserved_qty) (λ r. r.reserved_qty) all es)
          (undo_batch user now e s)
  unfolding undo_batch undo_found unreserve
  undo_batch-Left all (k, q) es s h = elim (Bool-cases (leb q 0)) [
    | inl t ↦ rw t (λ j r found active. ground (arith, h j r found active))
    | inr t ↦ rw t (elim (Option-cases (first (is_batch k) s.batches)) [
      | inl e ↦ rw e tt
      | inr (b, e) ↦ rw e (elim (Bool-cases (ltb b.reserved_qty q)) [
        | inl u ↦ rw u tt
        | inr u ↦ rw u (
            batch-BatchesLeft _ _ k q (unreserve user now q) (λ x y. y) all es s b e (ground arith)
              h)
      ])
    ])
  ]

  undo_stock-Left :
      (e : StockKey × ℕ) (d : Dict StockKey ℕ) (s : Db)
      → StockLeft (λ b. b.reserved_qty) (λ r. r.reserved_qty) (e ∷ d) s
      → Ends (StockLeft (λ b. b.reserved_qty) (λ r. r.reserved_qty) d) (undo_stock user now e s)
  unfolding undo_stock undo_stock_found unreserve_stock
  undo_stock-Left (k, q) d s h = elim (Option-cases (first (is_stock k) s.inventories)) [
    | inl e ↦ rw (e, undo_stock) tt
    | inr (r, e) ↦
        rw (e, undo_stock)
          (elim (Bool-cases (ltb r.reserved_qty q)) [
            | inl u ↦ rw u tt
            | inr u ↦ rw u (
                stock-StockLeft _ _ k q (unreserve_stock user now q) (λ x y. y) (λ x. refl) d s r e
                  (ground arith) h)
          ])
  ]

  pub undo_lo_reservations-Reserved :
      (lo : Dict BatchKey LoEntry) (s : Db)
      → Reserved s
      → Ends Reserved (undo_lo_reservations user now lo s)
  unfolding undo_lo_reservations
  undo_lo_reservations-Reserved lo s h =
      let es = lo_quantities lo in
      let w : ItemBatch → ℕ = λ b. b.reserved_qty in
      let v : Inventory → ℕ = λ r. r.reserved_qty in
      >>=-Ends (BatchesLeft w v es []) Reserved (for_each (undo_batch user now) es) _ s
        (for_each-Ends (BatchesLeft w v es) (undo_batch user now) (undo_batch-Left es) es s
          (Level-BatchesLeft w v es s h))
        (λ _ s' h'.
          Ends-imp (StockLeft w v []) Reserved
            (for_each (undo_stock user now) (stock_totals es []) s') (StockLeft-Level w v)
            (for_each-Ends (StockLeft w v) (undo_stock user now) undo_stock-Left
              (stock_totals es []) s' (BatchesLeft-StockLeft w v es s' h')))

  deplete_batch-Left :
      (all : List (BatchKey × ℕ)) (e : BatchKey × ℕ) (es : List (BatchKey × ℕ)) (s : Db)
      → BatchesLeft (λ b. b.usable_qty) (λ r. r.usable_qty) all (e ∷ es) s
      → Ends
          (BatchesLeft (λ b. b.usable_qty) (λ r. r.usable_qty) all es)
          (deplete_batch user now e s)
  unfolding deplete_batch deplete_found deplete
  deplete_batch-Left all (k, q) es s h = elim (Bool-cases (leb q 0)) [
    | inl t ↦ rw t (λ j r found active. ground (arith, h j r found active))
    | inr t ↦ rw t (elim (Option-cases (first (is_batch k) s.batches)) [
      | inl e ↦ rw e tt
      | inr (b, e) ↦ rw e (elim (Bool-cases (ltb b.usable_qty q)) [
        | inl u ↦ rw u tt
        | inr u ↦ rw u (
            batch-BatchesLeft _ _ k q (deplete user now q) (λ x y. y) all es s b e (ground arith) h)
      ])
    ])
  ]

  deplete_inventory-Left :
      (e : StockKey × ℕ) (d : Dict StockKey ℕ) (s : Db)
      → StockLeft (λ b. b.usable_qty) (λ r. r.usable_qty) (e ∷ d) s
      → Ends (StockLeft (λ b. b.usable_qty) (λ r. r.usable_qty) d) (deplete_inventory user now e s)
  unfolding deplete_inventory deplete_stock_found deplete_stock
  deplete_inventory-Left (k, q) d s h = elim (Option-cases (first (is_stock k) s.inventories)) [
    | inl e ↦ rw (e, deplete_inventory) tt
    | inr (r, e) ↦
        rw (e, deplete_inventory)
          (elim (Bool-cases (ltb r.usable_qty q)) [
            | inl u ↦ rw u tt
            | inr u ↦ rw u (
                stock-StockLeft _ _ k q (deplete_stock user now q) (λ x y. y) (λ x. refl) d s r e
                  (ground arith) h)
          ])
  ]

  pub deplete_usable_stock-Usable :
      (lm : List LmEntry) (s : Db) → Usable s → Ends Usable (deplete_usable_stock user now lm s)
  unfolding deplete_usable_stock
  deplete_usable_stock-Usable lm s h =
      let es = lm_quantities lm in
      let w : ItemBatch → ℕ = λ b. b.usable_qty in
      let v : Inventory → ℕ = λ r. r.usable_qty in
      >>=-Ends (BatchesLeft w v es []) Usable (for_each (deplete_batch user now) es) _ s
        (for_each-Ends (BatchesLeft w v es) (deplete_batch user now) (deplete_batch-Left es) es s
          (Level-BatchesLeft w v es s h))
        (λ _ s' h'.
          Ends-imp (StockLeft w v []) Usable
            (for_each (deplete_inventory user now) (stock_totals es []) s') (StockLeft-Level w v)
            (for_each-Ends (StockLeft w v) (deplete_inventory user now) deplete_inventory-Left
              (stock_totals es []) s' (BatchesLeft-StockLeft w v es s' h')))

  -- What moves one quantity leaves the other alone.
  undo_batch-Usable : (e : BatchKey × ℕ) (s : Db) → Usable s → Usable (undo_batch user now e s).1
  unfolding undo_batch undo_found unreserve
  undo_batch-Usable (k, q) s h = elim (Bool-cases (leb q 0)) [
    | inl t ↦ rw t h
    | inr t ↦ rw t (elim (Option-cases (first (is_batch k) s.batches)) [
      | inl e ↦ rw e h
      | inr (b, e) ↦ rw e (elim (Bool-cases (ltb b.reserved_qty q)) [
        | inl u ↦ rw u h
        | inr u ↦ rw u (batch-Level _ _ k (unreserve user now q) (λ x y. y) (λ x. refl) s h)
      ])
    ])
  ]

  undo_stock-Usable : (e : StockKey × ℕ) (s : Db) → Usable s → Usable (undo_stock user now e s).1
  unfolding undo_stock undo_stock_found unreserve_stock
  undo_stock-Usable (k, q) s h = elim (Option-cases (first (is_stock k) s.inventories)) [
    | inl e ↦ rw (e, undo_stock) h
    | inr (r, e) ↦
        rw (e, undo_stock)
          (elim (Bool-cases (ltb r.reserved_qty q)) [
            | inl u ↦ rw u h
            | inr u ↦ rw u (
                stock-Level _ _ k (unreserve_stock user now q) (λ j x. refl) (λ x. refl) (λ x. refl)
                  s h)
          ])
  ]

  deplete_batch-Reserved :
      (e : BatchKey × ℕ) (s : Db) → Reserved s → Reserved (deplete_batch user now e s).1
  unfolding deplete_batch deplete_found deplete
  deplete_batch-Reserved (k, q) s h = elim (Bool-cases (leb q 0)) [
    | inl t ↦ rw t h
    | inr t ↦ rw t (elim (Option-cases (first (is_batch k) s.batches)) [
      | inl e ↦ rw e h
      | inr (b, e) ↦ rw e (elim (Bool-cases (ltb b.usable_qty q)) [
        | inl u ↦ rw u h
        | inr u ↦ rw u (batch-Level _ _ k (deplete user now q) (λ x y. y) (λ x. refl) s h)
      ])
    ])
  ]

  deplete_inventory-Reserved :
      (e : StockKey × ℕ) (s : Db) → Reserved s → Reserved (deplete_inventory user now e s).1
  unfolding deplete_inventory deplete_stock_found deplete_stock
  deplete_inventory-Reserved (k, q) s h = elim (Option-cases (first (is_stock k) s.inventories)) [
    | inl e ↦ rw (e, deplete_inventory) h
    | inr (r, e) ↦
        rw (e, deplete_inventory)
          (elim (Bool-cases (ltb r.usable_qty q)) [
            | inl u ↦ rw u h
            | inr u ↦ rw u (
                stock-Level _ _ k (deplete_stock user now q) (λ j x. refl) (λ x. refl) (λ x. refl) s
                  h)
          ])
  ]

  pub undo_lo_reservations-Usable :
      (lo : Dict BatchKey LoEntry) (s : Db)
      → Usable s
      → Usable (undo_lo_reservations user now lo s).1
  unfolding undo_lo_reservations
  undo_lo_reservations-Usable lo s h =
      >>=-keeps Usable (for_each (undo_batch user now) (lo_quantities lo)) _ s
        (for_each-keeps Usable _ undo_batch-Usable _ s h)
        (λ _ s' h'. for_each-keeps Usable _ undo_stock-Usable _ s' h')

  pub deplete_usable_stock-Reserved :
      (lm : List LmEntry) (s : Db) → Reserved s → Reserved (deplete_usable_stock user now lm s).1
  unfolding deplete_usable_stock
  deplete_usable_stock-Reserved lm s h =
      >>=-keeps Reserved (for_each (deplete_batch user now) (lm_quantities lm)) _ s
        (for_each-keeps Reserved _ deplete_batch-Reserved _ s h)
        (λ _ s' h'. for_each-keeps Reserved _ deplete_inventory-Reserved _ s' h')
