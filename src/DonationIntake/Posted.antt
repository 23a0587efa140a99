-- ===== src/DonationIntake/Posted.antt =====
-- What the posting of a verified line does to the batches and to the stock of the warehouse.
use dmis_feature_branch.Base.{
  ℕ, ◌+◌, ◌≡◌, refl, sym, subst, ap, ◌∙◌, Option, inl, inr, String, true, false, none, some, List,
  arith, any, total, is_some, if◌then◌else◌, Bool-cases, Option-cases,
}
use dmis_feature_branch.Base.Table.{
  first, total-upsert, All-upsert, first-upsert_other, any-upsert, total_none, first-upsert_self,
  upserted,
}
use dmis_feature_branch.Store.{Db, ItemBatch, Inventory, StockKey, stock_beq, stock_beq_iff}
use dmis_feature_branch.Store.Query.{is_stock, in_stock}
use dmis_feature_branch.Store.Invariant.{IsCovered, AllCovered, IsConsistent, IsUsableConsistent}
use dmis_feature_branch.DonationIntake.Rows.{Depot}
use dmis_feature_branch.DonationIntake.Check.{Verified}
use dmis_feature_branch.DonationIntake.Verify.{
  add_to_batch, new_batch, add_to_stock, new_stock, stock_key, post_batches, post_inventories, post,
  lot_of,
}

-- A batch is kept only where the warehouse has a stock row of its item.
abbrev pub IsRooted : Db → Type 0
IsRooted s =
    (k : StockKey)
    → any (in_stock k) s.batches ≡ true
    → is_some (first (is_stock k) s.inventories) ≡ true

abbrev pub IsReceived : Db → Type 0
IsReceived s = AllCovered s × IsConsistent s × IsUsableConsistent s × IsRooted s

-- `row` of an active stock row is the sum of `col` over its batches.
abbrev pub AgreesAt : (Inventory → ℕ) → (ItemBatch → ℕ) → Db → StockKey → Type 0
AgreesAt row col s k =
    (r : Inventory)
    → first (is_stock k) s.inventories ≡ some r
    → r.status_code ≡ b'A'
    → row r ≡ total (λ b. if in_stock k b then col b else 0) s.batches

abbrev pub AgreesOn : (Inventory → ℕ) → (ItemBatch → ℕ) → Db → Type 0
AgreesOn row col s = (k : StockKey) → AgreesAt row col s k

module _ (user : String) (now : ℕ) (warehouse : ℕ) (v : Verified) where
  abbrev key : StockKey
  key = stock_key user now warehouse v

  -- A column of the batches grows by the line's quantity in the line's item, and nowhere else.
  pub total-post_batches :
      (col : ItemBatch → ℕ) (d id : ℕ) (k : StockKey) (bs : List ItemBatch)
      → ((b : ItemBatch) → col (add_to_batch user now v b) ≡ col b + d)
      → col (new_batch user now warehouse id v) ≡ d
      → total (λ b. if in_stock k b then col b else 0) (post_batches user now warehouse id v bs)
        ≡ total (λ b. if in_stock k b then col b else 0) bs + (if stock_beq key k then d else 0)
  unfolding post_batches add_to_batch new_batch
  total-post_batches col d id k bs h n =
      total-upsert _ (lot_of user now warehouse v) (add_to_batch user now v)
        (new_batch user now warehouse id v) (if stock_beq key k then d else 0) bs
        (λ b t. ground (arith, h b)) (ground arith)

  post_batches-AllCovered :
      (id : ℕ) (s : Db)
      → AllCovered s
      → AllCovered (record s { batches = post_batches user now warehouse id v s.batches })
  unfolding post_batches add_to_batch new_batch
  post_batches-AllCovered id s a =
      All-upsert IsCovered (lot_of user now warehouse v) _ _ s.batches (λ b t h. omega arith)
        (omega arith) a

  -- The stock row of another item or warehouse is as it was.
  first-post_inventories_other :
      (k : StockKey) (rs : List Inventory)
      → stock_beq key k ≡ false
      → first (is_stock k) (post_inventories user now warehouse v rs) ≡ first (is_stock k) rs
  unfolding post_inventories add_to_stock new_stock
  first-post_inventories_other k rs h =
      first-upsert_other (is_stock key) (is_stock k) (add_to_stock user now v)
        (new_stock user now warehouse v) rs (λ r t. ground arith) (ground arith)

  -- The line's own stock row is the one that was there, grown, or a new one.
  first-post_inventories_self :
      (rs : List Inventory)
      → first (is_stock key) (post_inventories user now warehouse v rs)
        ≡ some (
            upserted
              (add_to_stock user now v)
              (new_stock user now warehouse v)
              (first (is_stock key) rs))
  unfolding post_inventories add_to_stock new_stock
  first-post_inventories_self rs =
      first-upsert_self (is_stock key) (add_to_stock user now v) (new_stock user now warehouse v) rs
        (λ r t. ground arith) (ground arith)

  module _ (row : Inventory → ℕ) (col : ItemBatch → ℕ) (d : ℕ) (s : Depot)
      (hb : (b : ItemBatch) → col (add_to_batch user now v b) ≡ col b + d)
      (nb : col (new_batch user now warehouse s.next_batch_id v) ≡ d)
      (hr : (r : Inventory) → row (add_to_stock user now v r) ≡ row r + d)
      (nr : row (new_stock user now warehouse v) ≡ d) where
    grown : (r : Inventory) → (add_to_stock user now v r).status_code ≡ r.status_code
    unfolding add_to_stock
    grown r = refl

    written :
        (r : Inventory) (o : Option Inventory)
        → first (is_stock key) s.stock.inventories ≡ o
        → first (is_stock key) (post_inventories user now warehouse v s.stock.inventories) ≡ some r
        → r ≡ upserted (add_to_stock user now v) (new_stock user now warehouse v) o
    written r o h e = let self = first-post_inventories_self s.stock.inventories in cc

    post-AgreesAt :
        IsRooted s.stock
        → AgreesAt row col s.stock key
        → AgreesAt row col (post user now warehouse v s).stock key
    unfolding post
    post-AgreesAt root a r e act =
        let sum = total-post_batches col d s.next_batch_id key s.stock.batches hb nb in
        let batch_rooted = root key in
        elim (Option-cases (first (is_stock key) s.stock.inventories)) [
          | inl lost ↦
              let same = written r none lost e in
              ground (
                arith,
                total_none (in_stock key) col s.stock.batches,
                Bool-cases (any (in_stock key) s.stock.batches),
                ap row same,
              )
          | inr (o, found) ↦
              let same = written r (some o) found e in
              let before = a o found (sym (grown o) ∙ ap (λ r. r.status_code) (sym same) ∙ act) in
              ground (arith, hr o, ap row same)
        ]

    -- A column whose row and batch grow by the same amount goes on to agree.
    pub post-AgreesOn :
        IsRooted s.stock
        → AgreesOn row col s.stock
        → AgreesOn row col (post user now warehouse v s).stock
    unfolding post
    post-AgreesOn root a k = elim (Bool-cases (stock_beq key k)) [
      | inl t ↦
          subst (AgreesAt row col (post user now warehouse v s).stock) ((stock_beq_iff key k).0 t)
            (post-AgreesAt root (a key))
      | inr t ↦ λ r e act.
          let sum = total-post_batches col d s.next_batch_id k s.stock.batches hb nb in
          let old = a k r (rw (sym (first-post_inventories_other k s.stock.inventories t)) e) act in
          ground (arith)
    ]

  pub post-IsRooted : (s : Depot) → IsRooted s.stock → IsRooted (post user now warehouse v s).stock
  unfolding post post_batches add_to_batch new_batch
  post-IsRooted s root k h = elim (Bool-cases (stock_beq key k)) [
    | inl t ↦
        subst
          (λ j.
            is_some (first (is_stock j) (post_inventories user now warehouse v s.stock.inventories))
            ≡ true)
          ((stock_beq_iff key k).0 t) (ap is_some (first-post_inventories_self s.stock.inventories))
    | inr t ↦
        ap is_some (first-post_inventories_other k s.stock.inventories t)
        ∙ root k (
            ground (
              arith,
              any-upsert (lot_of user now warehouse v) (in_stock k) (add_to_batch user now v)
                  (new_batch user now warehouse s.next_batch_id v) s.stock.batches
                  (λ b t. ground arith) h,
            ))
  ]

  pub post-IsReceived :
      (s : Depot) → IsReceived s.stock → IsReceived (post user now warehouse v s).stock
  unfolding post add_to_batch new_batch add_to_stock new_stock
  post-IsReceived s (covered, consistent, usable, root) = (
    post_batches-AllCovered s.next_batch_id s.stock covered,
    post-AgreesOn (λ r. r.reserved_qty) (λ b. b.reserved_qty) 0 s (λ b. omega arith) refl
        (λ r. omega arith) refl root consistent,
    post-AgreesOn (λ r. r.usable_qty) (λ b. b.usable_qty) v.usable_qty s (λ b. refl) refl
        (λ r. refl) refl root usable,
    post-IsRooted s root,
  )
