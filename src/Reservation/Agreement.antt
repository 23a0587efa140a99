-- ===== src/Reservation/Agreement.antt =====
-- After a successful `reserve_inventory` the warehouse level agrees with the batch level: the reserved
-- quantity of every active inventory row is the sum over its batches.
use dmis_feature_branch.Base.{
  ℕ, ◌+◌, ◌-◌, ◌≡◌, refl, inl, inr, Option, none, some, List, [], ◌∷◌, arith, ltb, Bool-cases,
  Option-cases, true, ◌==◌,
}
use dmis_feature_branch.Base.Dict.{Dict, get_or_zero, keys, contains}
use dmis_feature_branch.Base.Table.{first}
use dmis_feature_branch.Base.Action.{for_each, for_each-All, >>=-Ends, Ends}
use dmis_feature_branch.Store.{Db, ItemBatch, BatchKey, StockKey, stock_of, key_eq, stock_eq}
use dmis_feature_branch.Store.Query.{is_batch, is_active_stock, set_reserved, reserved_total}
use dmis_feature_branch.Store.Invariant.{IsConsistent}
use dmis_feature_branch.Reservation.Recount.{
  AgreesExcept, AllIn, modify-AgreesExcept, modify_batch-AgreesExcept, stock_loop,
  affected-contains, affected-contains_old, All-key_union, All-imp,
}
use dmis_feature_branch.Reservation.Maps.{Allocation, affected, key_union}
use dmis_feature_branch.Reservation.Reserve.{
  write_reserved, apply_delta, missing_batch, reserve_key, recalculate, reserve_maps,
  set_stock_reserved, reserve_inventory,
}

recalculate-AgreesExcept :
    (k : StockKey) (ks : List StockKey) (s : Db)
    → AgreesExcept (k ∷ ks) s
    → Ends (AgreesExcept ks) (recalculate k s)
unfolding recalculate set_stock_reserved
recalculate-AgreesExcept k ks s a = elim (Option-cases (first (is_active_stock k) s.inventories)) [
  | inl e ↦ rw (e, recalculate) tt
  | inr (r, e) ↦
      rw (e, recalculate)
        (elim (Bool-cases (ltb r.usable_qty (reserved_total k s.batches))) [
          | inl t ↦ rw t tt
          | inr t ↦ rw t (
              modify-AgreesExcept k (is_active_stock k)
                (set_stock_reserved (reserved_total k s.batches)) (λ r t. ground arith) ks s
                (λ r. refl) (λ r t u. ground arith) a)
        ])
]

module _ (aff : List StockKey) where
  write_reserved-AgreesExcept :
      (k : BatchKey) (q : ℕ) (s : Db)
      → contains (stock_of k) aff ≡ true
      → AgreesExcept aff s
      → AgreesExcept aff (write_reserved k q s).1
  unfolding write_reserved set_reserved
  write_reserved-AgreesExcept k q s h a =
      modify_batch-AgreesExcept aff k (set_reserved q) s (λ b t. t) h a

  apply_delta-AgreesExcept :
      (k : BatchKey) (old new : ℕ) (b : ItemBatch) (s : Db)
      → contains (stock_of k) aff ≡ true
      → AgreesExcept aff s
      → Ends (AgreesExcept aff) (apply_delta k old new b s)
  unfolding apply_delta write_reserved
  apply_delta-AgreesExcept k old new b s h a = elim (Bool-cases (ltb (b.reserved_qty + new) old)) [
    | inl t ↦ rw t (write_reserved-AgreesExcept k 0 s h a)
    | inr t ↦ rw t (elim (Bool-cases (ltb (b.usable_qty + old) (b.reserved_qty + new))) [
      | inl u ↦ rw u tt
      | inr u ↦ rw u (write_reserved-AgreesExcept k (b.reserved_qty + new - old) s h a)
    ])
  ]

  missing_batch-AgreesExcept :
      (k : BatchKey) (old new : ℕ) (s : Db)
      → AgreesExcept aff s
      → Ends (AgreesExcept aff) (missing_batch k old new s)
  unfolding missing_batch
  missing_batch-AgreesExcept k old new s a = elim (Bool-cases (ltb old new)) [
    | inl t ↦ rw t tt
    | inr t ↦ rw t a
  ]

  reserve_key-AgreesExcept :
      (olds news : Dict BatchKey ℕ) (k : BatchKey) (s : Db)
      → contains (stock_of k) aff ≡ true
      → AgreesExcept aff s
      → Ends (AgreesExcept aff) (reserve_key olds news k s)
  unfolding reserve_key
  reserve_key-AgreesExcept olds news k s h a =
      elim (Bool-cases (get_or_zero k news == get_or_zero k olds)) [
        | inl t ↦ rw t a
        | inr t ↦ rw t (elim (Option-cases (first (is_batch k) s.batches)) [
          | inl e ↦ rw e (missing_batch-AgreesExcept k _ _ s a)
          | inr (b, e) ↦ rw e (apply_delta-AgreesExcept k _ _ b s h a)
        ])
      ]

reserve_maps-IsConsistent :
    (olds news : Dict BatchKey ℕ) (s : Db)
    → IsConsistent s
    → Ends IsConsistent (reserve_maps olds news s)
unfolding reserve_maps contains
reserve_maps-IsConsistent olds news s c =
    >>=-Ends (AgreesExcept aff) IsConsistent (for_each (reserve_key olds news) ks) _ s batch_phase
      (λ _ s' a. stock_phase s' a)
  where
    ks : List BatchKey
    ks = key_union (keys olds) (keys news)

    seen : List StockKey
    seen = affected (keys olds) []

    aff : List StockKey
    aff = affected (keys news) seen

    ks-AllIn : AllIn aff ks
    ks-AllIn =
        All-key_union _ (keys olds) (keys news)
          (All-imp _ _ (keys olds) (λ k h. affected-contains_old (stock_of k) (keys news) seen h)
            (affected-contains (keys olds) []))
          (affected-contains (keys news) seen)

    batch_phase : Ends (AgreesExcept aff) (for_each (reserve_key olds news) ks s)
    batch_phase =
        for_each-All (λ k. contains (stock_of k) aff ≡ true) (AgreesExcept aff)
          (reserve_key olds news) (λ k s h a. reserve_key-AgreesExcept aff olds news k s h a) ks s
          ks-AllIn (λ k _. c k)

    stock_phase : (s' : Db) → AgreesExcept aff s' → Ends IsConsistent (for_each recalculate aff s')
    stock_phase s' a = stock_loop recalculate recalculate-AgreesExcept aff s' a

-- After a successful reservation the two levels agree, if they did before.
pub reserve_inventory-IsConsistent :
    (rqst : ℕ) (allocations : List Allocation) (olds : Option (Dict BatchKey ℕ)) (s : Db)
    → IsConsistent s
    → Ends IsConsistent (reserve_inventory rqst allocations olds s)
unfolding reserve_inventory
reserve_inventory-IsConsistent rqst allocations none s c = reserve_maps-IsConsistent _ _ s c
reserve_inventory-IsConsistent rqst allocations (some olds) s c = reserve_maps-IsConsistent _ _ s c
