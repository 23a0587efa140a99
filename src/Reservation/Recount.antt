-- ===== src/Reservation/Recount.antt =====
-- How the two levels of reservations come apart and together again: which warehouse rows agree with
-- their batches while an operation runs.
use dmis_feature_branch.Base.{
  ◌≡◌, refl, sym, ◌∙◌, subst, inl, inr, List, [], ◌∷◌, arith, Bool, Bool-cases, true, false, ⊤, All,
}
use dmis_feature_branch.Base.Dict.{contains, add, contains-add, beq_of_contains, All-add}
use dmis_feature_branch.Base.Table.{modify, first-modify_other, first-modify_wider, first_holds}
use dmis_feature_branch.Base.Action.{for_each, for_each-Ends, Ends, Ends-imp}
use dmis_feature_branch.Store.{
  Db, ItemBatch, Inventory, BatchKey, StockKey, stock_of, stock_beq, stock_beq_iff, key_eq,
  stock_eq,
}
use dmis_feature_branch.Store.Query.{
  is_batch, is_stock, reserved_total, reserved_total-modify_other,
}
use dmis_feature_branch.Store.Invariant.{Agrees, IsConsistent}
use dmis_feature_branch.Reservation.Maps.{Service, affected, key_union}

-- The stock rows whose key is not in `ks` agree.
abbrev pub AgreesExcept : List StockKey → Db → Type 0
AgreesExcept ks s = (k : StockKey) → contains k ks ≡ false → Agrees s k

module _ (k : StockKey) (p : Inventory → Bool) (f : Inventory → Inventory)
    (narrow : (r : Inventory)
      → p r ≡ true
      → (is_stock k r ≡ true) × (is_stock k (f r) ≡ true)) where
  -- Updating the row of one key leaves the agreement of the others alone.
  pub modify-Agrees_other :
      (j : StockKey) (s : Db)
      → stock_beq k j ≡ false
      → Agrees s j
      → Agrees (record s { inventories = modify p f s.inventories }) j
  modify-Agrees_other j s h a r e = a r (
      sym (first-modify_other p (is_stock j) f s.inventories (λ x t. ground (arith, narrow x t)))
      ∙ e)

  -- Setting the row of `k` to the sum makes it agree, if the update reaches every active row.
  pub modify-Agrees_self :
      (s : Db)
      → ((r : Inventory) → (f r).reserved_qty ≡ reserved_total k s.batches)
      → ((r : Inventory) → is_stock k r ≡ true → r.status_code ≡ b'A' → p r ≡ true)
      → Agrees (record s { inventories = modify p f s.inventories }) k
  modify-Agrees_self s sums reaches r e active =
      let (x, found, same) = first-modify_wider p (is_stock k) f s.inventories r narrow e in
      ground (arith, sums x, reaches x, first_holds (is_stock k) s.inventories x found)

  -- One round of the recomputation: the keys that are left shrink by one.
  pub modify-AgreesExcept :
      (ks : List StockKey) (s : Db)
      → ((r : Inventory) → (f r).reserved_qty ≡ reserved_total k s.batches)
      → ((r : Inventory) → is_stock k r ≡ true → r.status_code ≡ b'A' → p r ≡ true)
      → AgreesExcept (k ∷ ks) s
      → AgreesExcept ks (record s { inventories = modify p f s.inventories })
  unfolding contains
  modify-AgreesExcept ks s sums reaches a j h = elim (Bool-cases (stock_beq k j)) [
    | inl t ↦
        subst (Agrees (record s { inventories = modify p f s.inventories }))
          ((stock_beq_iff k j).0 t) (modify-Agrees_self s sums reaches)
    | inr t ↦ modify-Agrees_other j s t (a j (ground arith))
  ]

pub affected-contains_old :
    (j : StockKey) (ks : List BatchKey) (ss : List StockKey)
    → contains j ss ≡ true
    → contains j (affected ks ss) ≡ true
unfolding affected
affected-contains_old j [] ss h = h
affected-contains_old j (k ∷ ks) ss h =
    affected-contains_old j ks (add (stock_of k) ss)
      (ground (arith, contains-add (stock_of k) j ss))

-- `affected_inventory` holds the item and warehouse of each key.
pub affected-contains :
    (ks : List BatchKey) (ss : List StockKey)
    → All (λ k. contains (stock_of k) (affected ks ss) ≡ true) ks
unfolding affected
affected-contains [] ss = tt
affected-contains (k ∷ ks) ss = (
  affected-contains_old (stock_of k) ks (add (stock_of k) ss) (
      ground (
        arith,
        contains-add (stock_of k) (stock_of k) ss,
        stock_beq_iff (stock_of k) (stock_of k),
      )),
  affected-contains ks (add (stock_of k) ss),
)

pub All-key_union {κ} :
    (P : BatchKey → Type κ) (js ks : List BatchKey) → All P js → All P ks → All P (key_union js ks)
unfolding key_union
All-key_union P [] ks a b = b
All-key_union P (j ∷ js) ks a b = All-key_union P js (add j ks) a.1 (All-add P j ks a.0 b)

pub All-imp {κ μ} :
    (P : BatchKey → Type κ) (Q : BatchKey → Type μ) (ks : List BatchKey)
    → ((k : BatchKey) → P k → Q k)
    → All P ks
    → All Q ks
All-imp P Q [] h a = tt
All-imp P Q (k ∷ ks) h a = (h k a.0, All-imp P Q ks h a.1)

module _ (aff : List StockKey) where
  -- A write to a batch of an affected pair disturbs no other pair.
  pub modify_batch-AgreesExcept :
      (k : BatchKey) (f : ItemBatch → ItemBatch) (s : Db)
      → ((b : ItemBatch) → is_batch k b ≡ true → is_batch k (f b) ≡ true)
      → contains (stock_of k) aff ≡ true
      → AgreesExcept aff s
      → AgreesExcept aff (record s { batches = modify (is_batch k) f s.batches })
  modify_batch-AgreesExcept k f s keeps h a j n r e active =
      a j n r e active
      ∙ sym (
          reserved_total-modify_other k f keeps j s.batches
            (beq_of_contains (stock_of k) j aff h n))

-- The second phase: recomputing all rows that may disagree makes the levels agree.
pub stock_loop :
    (body : StockKey → Service ⊤)
    → ((k : StockKey) (ks : List StockKey) (s : Db)
        → AgreesExcept (k ∷ ks) s
        → Ends (AgreesExcept ks) (body k s))
    → (ks : List StockKey) (s : Db) → AgreesExcept ks s
    → Ends IsConsistent (for_each body ks s)
unfolding contains
stock_loop body h ks s a =
    Ends-imp (AgreesExcept []) IsConsistent (for_each body ks s) (λ s' b k. b k refl)
      (for_each-Ends AgreesExcept body h ks s a)

abbrev pub AllIn : List StockKey → List BatchKey → Type 0
AllIn aff = All (λ k. contains (stock_of k) aff ≡ true)
