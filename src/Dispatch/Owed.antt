-- ===== src/Dispatch/Owed.antt =====
-- Two levels that drift apart by what a loop over batches has moved, and meet again when a second
-- loop has moved the totals: the argument for the steps C.3.3 and C.3.5, whichever quantity moves.
use dmis_feature_branch.Base.{
  ℕ, ◌+◌, ◌≡◌, subst, inl, inr, true, some, List, [], ◌∷◌, arith, leb, Bool-cases, if◌then◌else◌,
  total,
}
use dmis_feature_branch.Base.Dict.{
  Dict, keys, contains, lookup, add_to, get_or_zero, lookup-insert, Distinct, Distinct-insert,
  lookup_not_contains,
}
use dmis_feature_branch.Base.Table.{
  first, modify, first-modify_other, first-modify_wider, first-modify_self, first_holds,
  total-modify, total-modify_same,
}
use dmis_feature_branch.Store.{
  Db, ItemBatch, Inventory, BatchKey, StockKey, stock_of, stock_beq, stock_beq_iff, stock_eq,
}
use dmis_feature_branch.Store.Query.{is_batch, is_stock, in_stock}
use dmis_feature_branch.Dispatch.Plan.{stock_totals}

-- what some moves take from an item in a warehouse
abbrev pub moved : StockKey → List (BatchKey × ℕ) → ℕ
moved k = total (λ e. if stock_beq (stock_of e.0) k then e.1 else 0)

-- The totals are what the moves add up to.
pub stock_totals-moved :
    (k : StockKey) (es : List (BatchKey × ℕ)) (d : Dict StockKey ℕ)
    → get_or_zero k (stock_totals es d) ≡ get_or_zero k d + moved k es
unfolding stock_totals add_to
stock_totals-moved k [] d = omega arith
stock_totals-moved k ((j, q) ∷ es) d = elim (Bool-cases (leb q 0)) [
  | inl t ↦ ground (arith, stock_totals-moved k es d)
  | inr t ↦ ground (
    arith,
    stock_totals-moved k es (add_to (stock_of j) q d),
    lookup-insert (stock_of j) k (get_or_zero (stock_of j) d + q) d,
    stock_beq_iff (stock_of j) k,
  )
]

pub stock_totals-Distinct :
    (es : List (BatchKey × ℕ)) (d : Dict StockKey ℕ)
    → Distinct (keys d)
    → Distinct (keys (stock_totals es d))
unfolding stock_totals add_to
stock_totals-Distinct [] d h = h
stock_totals-Distinct ((j, q) ∷ es) d h = elim (Bool-cases (leb q 0)) [
  | inl t ↦ rw t (stock_totals-Distinct es d h)
  | inr t ↦ rw t (stock_totals-Distinct es _ (Distinct-insert (stock_of j) _ d h))
]

module _ (w : ItemBatch → ℕ) (v : Inventory → ℕ) where
  abbrev pub level_total : StockKey → Db → ℕ
  level_total k s = total (λ b. if in_stock k b then w b else 0) s.batches

  -- The active row of `k` has `ahead` more than its batches and the batches have `behind` less.
  abbrev pub Owes : Db → StockKey → ℕ → ℕ → Type 0
  Owes s k behind ahead =
      (r : Inventory)
      → first (is_stock k) s.inventories ≡ some r
      → r.status_code ≡ b'A'
      → v r + behind ≡ level_total k s + ahead

  -- during the loop over batches, with `es` left of `all`
  abbrev pub BatchesLeft : List (BatchKey × ℕ) → List (BatchKey × ℕ) → Db → Type 0
  BatchesLeft all es s = (k : StockKey) → Owes s k (moved k es) (moved k all)

  -- during the loop over the totals, with `d` left
  abbrev pub StockLeft : Dict StockKey ℕ → Db → Type 0
  StockLeft d s = Distinct (keys d) × ((k : StockKey) → Owes s k 0 (get_or_zero k d))

  module _ (k : BatchKey) (q : ℕ) (f : ItemBatch → ItemBatch)
      (keeps : (b : ItemBatch) → is_batch k b ≡ true → is_batch k (f b) ≡ true) where
    pub batch-BatchesLeft :
        (all es : List (BatchKey × ℕ)) (s : Db) (b : ItemBatch)
        → first (is_batch k) s.batches ≡ some b
        → w (f b) + q ≡ w b
        → BatchesLeft all ((k, q) ∷ es) s
        → BatchesLeft all es (record s { batches = modify (is_batch k) f s.batches })
    batch-BatchesLeft all es s b e moves h j r found active =
        elim (Bool-cases (stock_beq (stock_of k) j)) [
          | inl t ↦ ground (
            arith,
            h j r found active,
            total-modify (λ b. if in_stock j b then w b else 0) (is_batch k) f s.batches b e,
            first_holds (is_batch k) s.batches b e,
            keeps b,
          )
          | inr t ↦ ground (
            arith,
            h j r found active,
            total-modify_same (λ b. if in_stock j b then w b else 0) (is_batch k) f s.batches
                (λ b e. ground (arith, keeps b)),
          )
        ]

  module _ (k : StockKey) (q : ℕ) (g : Inventory → Inventory)
      (keeps : (r : Inventory) → is_stock k r ≡ true → is_stock k (g r) ≡ true)
      (active_before : (r : Inventory) → (g r).status_code ≡ r.status_code) where
    stock-StockLeft_self :
        (d : Dict StockKey ℕ) (s : Db) (r : Inventory)
        → first (is_stock k) s.inventories ≡ some r
        → v (g r) + q ≡ v r
        → StockLeft ((k, q) ∷ d) s
        → Owes
            (record s { inventories = modify (is_stock k) g s.inventories })
            k
            0
            (get_or_zero k d)
    unfolding contains lookup
    stock-StockLeft_self d s r e moves (fresh, h) x found active =
        let old : v r + 0 ≡ level_total k s + (if stock_beq k k then q else get_or_zero k d) =
          ground (
            arith,
            h k r e,
            active_before r,
            first-modify_self (is_stock k) g s.inventories r e
                (keeps r (first_holds (is_stock k) s.inventories r e)),
            stock_beq_iff k k,
          ) in
        ground (
          arith,
          first-modify_self (is_stock k) g s.inventories r e
              (keeps r (first_holds (is_stock k) s.inventories r e)),
          stock_beq_iff k k,
          lookup_not_contains k d,
        )

    pub stock-StockLeft :
        (d : Dict StockKey ℕ) (s : Db) (r : Inventory)
        → first (is_stock k) s.inventories ≡ some r
        → v (g r) + q ≡ v r
        → StockLeft ((k, q) ∷ d) s
        → StockLeft d (record s { inventories = modify (is_stock k) g s.inventories })
    unfolding contains lookup
    stock-StockLeft d s r e moves (fresh, h) = (
      fresh.1,
      λ j. elim (Bool-cases (stock_beq k j)) [
        | inl t ↦
            subst
              (λ i.
                Owes (record s { inventories = modify (is_stock k) g s.inventories }) i 0
                  (get_or_zero i d))
              ((stock_beq_iff k j).0 t) (stock-StockLeft_self d s r e moves (fresh, h))
        | inr t ↦ λ x found active. ground (
          arith,
          h j x,
          first-modify_other (is_stock k) (is_stock j) g s.inventories
              (λ y u. ground (arith, keeps y)),
        )
      ],
    )

  abbrev pub Level : Db → Type 0
  Level s = (k : StockKey) → Owes s k 0 0

  -- A write that leaves the quantity of a batch alone keeps the levels together.
  pub batch-Level :
      (k : BatchKey) (f : ItemBatch → ItemBatch)
      → ((b : ItemBatch) → is_batch k b ≡ true → is_batch k (f b) ≡ true)
      → ((b : ItemBatch) → w (f b) ≡ w b)
      → (s : Db) → Level s
      → Level (record s { batches = modify (is_batch k) f s.batches })
  batch-Level k f keeps same s h j r found active = ground (
    arith,
    h j r found active,
    total-modify_same (λ b. if in_stock j b then w b else 0) (is_batch k) f s.batches
        (λ b e. ground (arith, keeps b, same b)),
  )

  -- The same for a write to a warehouse row.
  pub stock-Level :
      (k : StockKey) (g : Inventory → Inventory)
      → ((j : StockKey) (r : Inventory) → is_stock j (g r) ≡ is_stock j r)
      → ((r : Inventory) → v (g r) ≡ v r)
      → ((r : Inventory) → (g r).status_code ≡ r.status_code)
      → (s : Db) → Level s
      → Level (record s { inventories = modify (is_stock k) g s.inventories })
  stock-Level k g keeps same status s h j x found active = elim (Bool-cases (stock_beq k j)) [
    | inl t ↦
        let (y, before, eq) =
          first-modify_wider (is_stock k) (is_stock j) g s.inventories x
            (λ r u. ground (arith, keeps j r)) found in
        ground (arith, h j y before, same y, status y, Bool-cases (is_stock k y))
    | inr t ↦ ground (
      arith,
      h j x,
      first-modify_other (is_stock k) (is_stock j) g s.inventories
          (λ y u. ground (arith, keeps j y)),
    )
  ]

  pub Level-BatchesLeft : (es : List (BatchKey × ℕ)) (s : Db) → Level s → BatchesLeft es es s
  Level-BatchesLeft es s h k r found active = ground (arith, h k r found active)

  pub BatchesLeft-StockLeft :
      (es : List (BatchKey × ℕ)) (s : Db) → BatchesLeft es [] s → StockLeft (stock_totals es []) s
  unfolding lookup
  BatchesLeft-StockLeft es s h = (
    stock_totals-Distinct es [] tt,
    λ k r found active. ground (arith, h k r found active, stock_totals-moved k es []),
  )

  pub StockLeft-Level : (s : Db) → StockLeft [] s → Level s
  unfolding lookup
  StockLeft-Level s h k r found active = h.1 k r found active
