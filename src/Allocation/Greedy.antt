-- ===== src/Allocation/Greedy.antt =====
-- `auto_allocate_batches` takes as much as it can, no more than is asked or available, and exhausts
-- each batch before it touches one that comes later in the order.
use dmis_feature_branch.Base.{
  ℕ, ◌-◌, ◌≤◌, ◌<◌, ◌≡◌, refl, sym, subst, inl, inr, true, false, Option, none, some, List, [], ◌∷◌,
  arith, min, total, All, In, In-filter, All-In, filter, Bool-cases, ltb, ◌==◌, true_and_false, ◌∙◌,
  ap,
}
use dmis_feature_branch.Base.Table.{first}
use dmis_feature_branch.Base.Sort.{
  lex, lex_irrefl, sorted, IsSorted, sorted-IsSorted, sorted-All, sorted-In, sorted-total,
}
use dmis_feature_branch.Store.{ItemBatch}
use dmis_feature_branch.Allocation.Batches.{
  Catalogue, Item, available, get_available_batches, sort_batches_by_allocation_rule, rule_key,
  unexpired,
}
use dmis_feature_branch.Allocation.Auto.{allocate, auto_allocate_batches}

-- a positive quantity that the batch can give
abbrev pub IsDrawable : ItemBatch × ℕ → Type 0
IsDrawable e = (0 < e.1) × (e.1 ≤ available e.0)

allocate-IsDrawable : (q : ℕ) (bs : List ItemBatch) → All IsDrawable (allocate q bs)
unfolding allocate
allocate-IsDrawable q [] = tt
allocate-IsDrawable q (b ∷ bs) = elim (Bool-cases (q == 0)) [
  | inl t ↦ rw t tt
  | inr t ↦ rw t (elim (Bool-cases (ltb 0 (min (available b) q))) [
    | inl u ↦ rw u ((ground arith, omega arith), allocate-IsDrawable (q - min (available b) q) bs)
    | inr u ↦ rw u (allocate-IsDrawable (q - min (available b) q) bs)
  ])
]

allocate_nothing : (bs : List ItemBatch) → allocate 0 bs ≡ []
unfolding allocate
allocate_nothing [] = refl
allocate_nothing (b ∷ bs) = refl

total-allocate :
    (q : ℕ) (bs : List ItemBatch) → total (λ e. e.1) (allocate q bs) ≡ min q (total available bs)
unfolding allocate
total-allocate q [] = omega arith
total-allocate q (b ∷ bs) = elim (Bool-cases (q == 0)) [
  | inl t ↦ rw t (ground arith)
  | inr t ↦ rw t (elim (Bool-cases (ltb 0 (min (available b) q))) [
    | inl u ↦ rw u (omega (arith, total-allocate (q - min (available b) q) bs))
    | inr u ↦ rw u (ground (arith, total-allocate (q - min (available b) q) bs))
  ])
]

abbrev pair_with : ItemBatch → ℕ → ItemBatch × ℕ
pair_with x k = (x, k)

allocate_cons :
    (q : ℕ) (x : ItemBatch) (xs : List ItemBatch)
    → 0 < q
    → 0 < available x
    → allocate q (x ∷ xs) ≡ (x, min (available x) q) ∷ allocate (q - min (available x) q) xs
unfolding allocate
allocate_cons q x xs h k = ground arith

module _ (item : Item) where
  -- In a sorted list the head does not come after an element that must go before it.
  head_first :
      (x b c : ItemBatch) (xs : List ItemBatch)
      → x ≡ b
      → All (λ y. lex (rule_key item y) (rule_key item x) ≡ false) xs
      → In c (x ∷ xs)
      → lex (rule_key item c) (rule_key item b) ≡ true
      → ⊥
  head_first x b c xs e a (inl f) h = true_and_false _ h (
      subst (λ y. lex (rule_key item y) (rule_key item b) ≡ false) (sym e ∙ f)
        (lex_irrefl (rule_key item b)))
  head_first x b c xs e a (inr j) h = true_and_false _ h (
      subst (λ y. lex (rule_key item c) (rule_key item y) ≡ false) e
        (All-In (λ y. lex (rule_key item y) (rule_key item x) ≡ false) xs c a j))

  -- Of two batches in a sorted list, the one that must go first is exhausted before the other is used.
  allocate_exhausts :
      (q : ℕ) (bs : List ItemBatch) (b c : ItemBatch) (n : ℕ)
      → IsSorted (rule_key item) bs
      → All (λ x. 0 < available x) bs
      → In (b, n) (allocate q bs)
      → In c bs
      → lex (rule_key item c) (rule_key item b) ≡ true
      → In (c, available c) (allocate q bs)
  allocate_exhausts q [] b c n s p m i h = absurd i
  allocate_exhausts q (x ∷ xs) b c n s p m i h = elim (Bool-cases (ltb 0 q)) [
    | inr t ↦ absurd (
        subst (In (b, n)) (ap (λ r. allocate r (x ∷ xs)) (ground arith) ∙ allocate_nothing (x ∷ xs))
          m)
    | inl t ↦
        let eq = allocate_cons q x xs (ground arith) p.0 in
        rw eq (elim (subst (In (b, n)) eq m) [
          | inl e ↦ absurd (head_first x b c xs (ap (λ f. f.0) e) s.0 i h)
          | inr r ↦ elim (Bool-cases (ltb (available x) q)) [
            | inl more ↦ elim i [
              | inl e ↦ inl (
                  subst (λ y. ◌≡◌ {A = ItemBatch × ℕ} (x, min (available x) q) (y, available y)) e
                    (ap (pair_with x) (ground arith)))
              | inr j ↦ inr (allocate_exhausts (q - min (available x) q) xs b c n s.1 p.1 r j h)
            ]
            | inr done ↦
                absurd (
                  subst (In (b, n)) (ap (λ k. allocate k xs) (ground arith) ∙ allocate_nothing xs)
                    r)
          ]
        ])
  ]

-- what the service allocates, for an item that exists
pub auto_allocate_lem :
    (today : ℕ) (c : Catalogue) (item : Item) (item_id q : ℕ) (warehouse : Option ℕ)
    → first (λ i. i.item_id == item_id) c.items ≡ some item
    → auto_allocate_batches today c item_id q warehouse
      ≡ allocate q (
          sort_batches_by_allocation_rule today
            (get_available_batches c item_id warehouse none)
            item)
unfolding auto_allocate_batches
auto_allocate_lem today c item item_id q warehouse e = rw (e, auto_allocate_batches)

-- what may be allocated: the available batches that have not expired
abbrev pub eligible : ℕ → Catalogue → Item → ℕ → Option ℕ → List ItemBatch
eligible today c item item_id warehouse =
    unexpired today item (get_available_batches c item_id warehouse none)

module _ (today : ℕ) (c : Catalogue) (item : Item) (item_id q : ℕ) (warehouse : Option ℕ)
    (found : first (λ i. i.item_id == item_id) c.items ≡ some item) where
  -- Each entry takes a positive quantity, at most what the batch has free.
  pub auto_allocate-IsDrawable : All IsDrawable (auto_allocate_batches today c item_id q warehouse)
  auto_allocate-IsDrawable =
      rw (auto_allocate_lem today c item item_id q warehouse found) (allocate-IsDrawable q _)

  total-filter :
      (bs : List ItemBatch)
      → total available (filter (λ b. ltb 0 (available b)) bs) ≡ total available bs
  total-filter [] = refl
  total-filter (b ∷ bs) = ground (arith, total-filter bs)

  -- The entries add up to the request, or to all that is free where that is less.
  pub auto_allocate_total :
      total (λ e. e.1) (auto_allocate_batches today c item_id q warehouse)
      ≡ min q (total available (eligible today c item item_id warehouse))
  unfolding sort_batches_by_allocation_rule
  auto_allocate_total = rw (auto_allocate_lem today c item item_id q warehouse found) (
      total-allocate q _
      ∙ ap (min q) (
          sorted-total (rule_key item) available
            (filter (λ b. ltb 0 (available b)) (eligible today c item item_id warehouse))
          ∙ total-filter (eligible today c item item_id warehouse)))

  free : (bs : List ItemBatch) → All (λ x. 0 < available x) (filter (λ b. ltb 0 (available b)) bs)
  free [] = tt
  free (b ∷ bs) = ground (arith, free bs)

  positive :
      (bs : List ItemBatch)
      → All (λ x. 0 < available x) (sorted (rule_key item) (filter (λ b. ltb 0 (available b)) bs))
  positive bs = sorted-All (rule_key item) (λ x. 0 < available x) _ (free bs)

  -- No batch is used while one that comes before it in the item's order has anything left.
  pub auto_allocate_exhausts :
      (b d : ItemBatch) (n : ℕ)
      → In (b, n) (auto_allocate_batches today c item_id q warehouse)
      → In d (eligible today c item item_id warehouse)
      → 0 < available d
      → lex (rule_key item d) (rule_key item b) ≡ true
      → In (d, available d) (auto_allocate_batches today c item_id q warehouse)
  unfolding sort_batches_by_allocation_rule
  auto_allocate_exhausts b d n m i p h =
      let eq = auto_allocate_lem today c item item_id q warehouse found in
      let bs = filter (λ b. ltb 0 (available b)) (eligible today c item item_id warehouse) in
      subst (In (d, available d)) (sym eq) (
        allocate_exhausts item q (sorted (rule_key item) bs) b d n
          (sorted-IsSorted (rule_key item) bs) (positive (eligible today c item item_id warehouse))
          (subst (In (b, n)) eq m)
          ((sorted-In (rule_key item) bs d).1
            ((In-filter _ (eligible today c item item_id warehouse) d).1 (i, ground arith)))
          h)
