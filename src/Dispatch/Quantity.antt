-- ===== src/Dispatch/Quantity.antt =====
-- The quantity of one batch while a loop moves quantities of batches.
use dmis_feature_branch.Base.{
  ℕ, ◌+◌, ◌≡◌, ap, subst, inl, inr, true, none, some, List, arith, Bool-cases, if◌then◌else◌, total,
}
use dmis_feature_branch.Base.Table.{first, modify, first-modify_self, first_holds}
use dmis_feature_branch.Store.{Db, ItemBatch, BatchKey, key_beq, key_beq_iff}
use dmis_feature_branch.Store.Query.{is_batch, first-modify_batch}

-- what some moves name for a batch
abbrev pub moved_from : BatchKey → List (BatchKey × ℕ) → ℕ
moved_from k = total (λ e. if key_beq e.0 k then e.1 else 0)

module _ (w : ItemBatch → ℕ) (k : BatchKey) where
  -- the quantity of the batch `k`, 0 if there is none
  abbrev pub quantity_of : Db → ℕ
  quantity_of s = elim (first (is_batch k) s.batches) [ none ↦ 0 | some b ↦ w b ]

  pub batch-quantity_of :
      (j : BatchKey) (q : ℕ) (f : ItemBatch → ItemBatch)
      → ((b : ItemBatch) → is_batch j b ≡ true → is_batch j (f b) ≡ true)
      → (s : Db) (b : ItemBatch) → first (is_batch j) s.batches ≡ some b
      → w (f b) + q ≡ w b
      → quantity_of (record s { batches = modify (is_batch j) f s.batches })
          + (if key_beq j k then q else 0)
        ≡ quantity_of s
  batch-quantity_of j q f keeps s b e moves = elim (Bool-cases (key_beq j k)) [
    | inl t ↦ rw t (
        subst
          (λ i.
            (elim (first (is_batch i) (modify (is_batch j) f s.batches)) [
              | none ↦ 0
              | some b ↦ w b
            ])
              + q
            ≡ (elim (first (is_batch i) s.batches) [ none ↦ 0 | some b ↦ w b ]))
          ((key_beq_iff j k).0 t)
          (ground (
            arith,
            first-modify_self (is_batch j) f s.batches b e
                (keeps b (first_holds (is_batch j) s.batches b e)),
          )))
    | inr t ↦ rw (t, quantity_of, first-modify_batch j f keeps k s.batches t) (omega arith)
  ]

  -- with `es` left of `all`, where the batch held `base` at the start
  abbrev pub QuantityLeft : ℕ → List (BatchKey × ℕ) → List (BatchKey × ℕ) → Db → Type 0
  QuantityLeft base all es s = quantity_of s + moved_from k all ≡ base + moved_from k es

module _ (w : ItemBatch → ℕ) (k : BatchKey) where
  pub of_batches : (s t : Db) → s.batches ≡ t.batches → quantity_of w k s ≡ quantity_of w k t
  of_batches s t e = ap (λ bs. elim (first (is_batch k) bs) [ none ↦ 0 | some b ↦ w b ]) e

  pub same-quantity_of :
      (j : BatchKey) (f : ItemBatch → ItemBatch)
      → ((b : ItemBatch) → is_batch j b ≡ true → is_batch j (f b) ≡ true)
      → ((b : ItemBatch) → w (f b) ≡ w b)
      → (s : Db) (b : ItemBatch) → first (is_batch j) s.batches ≡ some b
      → quantity_of w k (record s { batches = modify (is_batch j) f s.batches }) ≡ quantity_of w k s
  same-quantity_of j f keeps same s b e =
      ground (arith, same b, batch-quantity_of w k j 0 f keeps s b e)
