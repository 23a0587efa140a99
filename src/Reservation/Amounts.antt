-- ===== src/Reservation/Amounts.antt =====
-- What a successful `reserve_inventory` leaves in each batch.
use dmis_feature_branch.Base.{
  ℕ, ◌+◌, ◌-◌, ◌≡◌, refl, sym, ap, ◌∙◌, inl, inr, some, List, [], ◌∷◌, arith, ltb, ◌==◌, ◌||◌,
  Bool-cases, Option-cases, false, if◌then◌else◌, subst,
}
use dmis_feature_branch.Base.Dict.{
  Dict, keys, contains, add, get_or_zero, Distinct, Distinct-add, Distinct-insert, contains-add,
  lookup_not_contains,
}
use dmis_feature_branch.Base.Table.{first, first-modify_self, first_holds}
use dmis_feature_branch.Base.Action.{
  for_each, for_each-Ends, for_each-keeps, >>=-Ends, Ends, Ends-all, Ends-imp,
}
use dmis_feature_branch.Store.{Db, ItemBatch, BatchKey, StockKey, key_eq, key_beq, key_beq_iff}
use dmis_feature_branch.Store.Query.{is_batch, set_reserved, first-modify_batch}
use dmis_feature_branch.Reservation.Maps.{
  Allocation, allocations_map, key_union, affected, key_of_allocation,
}
use dmis_feature_branch.Reservation.Reserve.{
  write_reserved, apply_delta, missing_batch, reserve_key, recalculate, reserve_maps,
  reserve_inventory,
}

-- max(0, reserved + (new - old)), for the quantities of a key in the two dicts
abbrev pub reserved_after : Dict BatchKey ℕ → Dict BatchKey ℕ → BatchKey → ItemBatch → ItemBatch
reserved_after olds news k b = record b {
  reserved_qty = b.reserved_qty + get_or_zero k news - get_or_zero k olds;
}

-- A write to the batch that was found.
write_reserved_self :
    (k : BatchKey) (b : ItemBatch) (q r : ℕ) (s : Db)
    → q ≡ r
    → first (is_batch k) s.batches ≡ some b
    → first (is_batch k) (write_reserved k q s).1.batches ≡ some (record b { reserved_qty = r })
unfolding write_reserved set_reserved
write_reserved_self k b q r s h e =
    first-modify_self (is_batch k) (set_reserved q) s.batches b e
      (first_holds (is_batch k) s.batches b e)
    ∙ ap (λ x. some (record b { reserved_qty = x })) h

write_reserved_other :
    (j k : BatchKey) (q : ℕ) (s : Db)
    → key_beq j k ≡ false
    → first (is_batch k) (write_reserved j q s).1.batches ≡ first (is_batch k) s.batches
unfolding write_reserved set_reserved
write_reserved_other j k q s h = first-modify_batch j (set_reserved q) (λ b t. t) k s.batches h

apply_delta_self :
    (k : BatchKey) (b : ItemBatch) (old new : ℕ) (s : Db)
    → first (is_batch k) s.batches ≡ some b
    → Ends
        (λ s'.
          first (is_batch k) s'.batches
          ≡ some (record b { reserved_qty = b.reserved_qty + new - old }))
        (apply_delta k old new b s)
unfolding apply_delta write_reserved
apply_delta_self k b old new s e = elim (Bool-cases (ltb (b.reserved_qty + new) old)) [
  | inl t ↦ rw t (write_reserved_self k b 0 _ s (ground arith) e)
  | inr t ↦ rw t (elim (Bool-cases (ltb (b.usable_qty + old) (b.reserved_qty + new))) [
    | inl u ↦ rw u tt
    | inr u ↦ rw u (write_reserved_self k b _ _ s refl e)
  ])
]

apply_delta_other :
    (j k : BatchKey) (old new : ℕ) (b : ItemBatch) (s : Db)
    → key_beq j k ≡ false
    → first (is_batch k) (apply_delta j old new b s).1.batches ≡ first (is_batch k) s.batches
unfolding apply_delta
apply_delta_other j k old new b s h = elim (Bool-cases (ltb (b.reserved_qty + new) old)) [
  | inl t ↦ rw t (write_reserved_other j k 0 s h)
  | inr t ↦ rw t (elim (Bool-cases (ltb (b.usable_qty + old) (b.reserved_qty + new))) [
    | inl u ↦ rw u
    | inr u ↦ rw u (write_reserved_other j k _ s h)
  ])
]

contains-key_union :
    (k : BatchKey) (js ks : List BatchKey)
    → contains k (key_union js ks) ≡ (contains k js || contains k ks)
unfolding key_union contains
contains-key_union k [] ks = refl
contains-key_union k (j ∷ js) ks =
    ground (arith, contains-key_union k js (add j ks), contains-add j k ks)

Distinct-key_union : (js ks : List BatchKey) → Distinct ks → Distinct (key_union js ks)
unfolding key_union
Distinct-key_union [] ks d = d
Distinct-key_union (j ∷ js) ks d = Distinct-key_union js (add j ks) (Distinct-add j ks d)

-- Recomputing a warehouse row writes to no batch.
recalculate_batches : (j : StockKey) (s : Db) → (recalculate j s).1.batches ≡ s.batches
unfolding recalculate
recalculate_batches j s = ground arith

-- A key that neither dict has asks for no change.
untouched :
    (olds news : Dict BatchKey ℕ) (k : BatchKey) (b : ItemBatch)
    → contains k (key_union (keys olds) (keys news)) ≡ false
    → b ≡ reserved_after olds news k b
untouched olds news k b h =
    ap (λ q. record b { reserved_qty = q })
      (ground (
        arith,
        contains-key_union k (keys olds) (keys news),
        lookup_not_contains k olds,
        lookup_not_contains k news,
      ))

module _ (olds news : Dict BatchKey ℕ) (k : BatchKey) (b : ItemBatch) where
  -- the batch of `k` while the keys `ks` are left to do
  abbrev Pending : List BatchKey → Db → Type 0
  Pending ks s =
      first (is_batch k) s.batches
      ≡ some (if contains k ks then b else reserved_after olds news k b)

  abbrev pub Settled : Db → Type 0
  Settled s = first (is_batch k) s.batches ≡ some (reserved_after olds news k b)

  own_round :
      (s : Db) → first (is_batch k) s.batches ≡ some b → Ends Settled (reserve_key olds news k s)
  unfolding reserve_key
  own_round s e = elim (Bool-cases (get_or_zero k news == get_or_zero k olds)) [
    | inl t ↦ rw t (e ∙ ap (λ q. some (record b { reserved_qty = q })) (ground arith))
    | inr t ↦ rw t (rw e (apply_delta_self k b _ _ s e))
  ]

  other_round :
      (j : BatchKey) (s : Db)
      → key_beq j k ≡ false
      → first (is_batch k) (reserve_key olds news j s).1.batches ≡ first (is_batch k) s.batches
  unfolding reserve_key missing_batch
  other_round j s h = elim (Bool-cases (get_or_zero j news == get_or_zero j olds)) [
    | inl t ↦ rw t
    | inr t ↦ rw t (elim (Option-cases (first (is_batch j) s.batches)) [
      | inl e ↦ rw e (ground arith)
      | inr (c, e) ↦ rw e (apply_delta_other j k _ _ c s h)
    ])
  ]

  -- One round: the batch of `k` changes in the round of `k`, and in no other.
  round :
      (j : BatchKey) (ks : List BatchKey) (s : Db)
      → Distinct (j ∷ ks) × Pending (j ∷ ks) s
      → Ends (λ s'. Distinct ks × Pending ks s') (reserve_key olds news j s)
  unfolding contains
  round j ks s (d, e) = elim (Bool-cases (key_beq j k)) [
    | inl t ↦
        let same = (key_beq_iff j k).0 t in
        let fresh : contains k ks ≡ false = subst (λ i. contains i ks ≡ false) same d.0 in
        Ends-imp Settled (λ s'. Distinct ks × Pending ks s') (reserve_key olds news j s)
          (λ s' h. (d.1, rw fresh h))
          (subst (λ i. Ends Settled (reserve_key olds news i s)) (sym same)
            (own_round s (e ∙ ap some (rw t))))
    | inr t ↦
        let rest : Pending ks s = e ∙ ap some (rw t) in
        Ends-all _ (reserve_key olds news j s) (d.1, other_round j s t ∙ rest)
  ]

  start :
      (s : Db)
      → first (is_batch k) s.batches ≡ some b
      → Pending (key_union (keys olds) (keys news)) s
  start s e = elim (Bool-cases (contains k (key_union (keys olds) (keys news)))) [
    | inl t ↦ rw t e
    | inr t ↦ rw t (e ∙ ap some (untouched olds news k b t))
  ]

  -- After a successful reservation the batch holds its old reservations and the change that the
  -- package asks for, but never less than nothing; nothing else of the batch changes.
  pub reserve_maps_batch :
      (s : Db)
      → Distinct (keys news)
      → first (is_batch k) s.batches ≡ some b
      → Ends Settled (reserve_maps olds news s)
  unfolding reserve_maps contains
  reserve_maps_batch s d e =
      >>=-Ends Settled Settled (for_each (reserve_key olds news) ks) _ s
        (Ends-imp (λ s'. Distinct {K = BatchKey} [] × Pending [] s') Settled _ (λ s' h. h.1)
          (for_each-Ends (λ ks s'. Distinct ks × Pending ks s') (reserve_key olds news) round ks s
            (Distinct-key_union (keys olds) (keys news) d, start s e)))
        (λ _ s' h. Ends-all Settled _ (
          for_each-keeps Settled recalculate
            (λ j s'' h'. ap (first (is_batch k)) (recalculate_batches j s'') ∙ h')
            (affected (keys news) (affected (keys olds) [])) s' h))
    where
      ks : List BatchKey
      ks = key_union (keys olds) (keys news)

allocations_map-Distinct :
    (as' : List Allocation) (d : Dict BatchKey ℕ)
    → Distinct (keys d)
    → Distinct (keys (allocations_map as' d))
unfolding allocations_map
allocations_map-Distinct [] d h = h
allocations_map-Distinct (a ∷ as') d h = elim (Bool-cases (ltb 0 a.allocated_qty)) [
  | inl t ↦
      rw t
        (allocations_map-Distinct as' _ (Distinct-insert (key_of_allocation a) a.allocated_qty d h))
  | inr t ↦ rw t (allocations_map-Distinct as' d h)
]

-- `reserve_inventory` moves each batch from the package's old allocation to its new one.
pub reserve_inventory_batch :
    (rqst : ℕ) (allocations : List Allocation) (olds : Dict BatchKey ℕ) (k : BatchKey)
    (b : ItemBatch) (s : Db)
    → first (is_batch k) s.batches ≡ some b
    → Ends
        (λ s'.
          first (is_batch k) s'.batches
          ≡ some (reserved_after olds (allocations_map allocations []) k b))
        (reserve_inventory rqst allocations (some olds) s)
unfolding reserve_inventory
reserve_inventory_batch rqst allocations olds k b s e =
    reserve_maps_batch olds (allocations_map allocations []) k b s
      (allocations_map-Distinct allocations [] tt) e
