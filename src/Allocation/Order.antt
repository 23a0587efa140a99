-- ===== src/Allocation/Order.antt =====
-- What the orders mean for allocation: first expired first out, first in first out, and only
-- batches that may be issued.
use dmis_feature_branch.Base.{
  All-In, ℕ, ◌<◌, ◌≡◌, subst, ◌⊎◌, inl, inr, true, false, Option, none, some, List, [], ◌∷◌, ap,
  arith, In, In-filter, Bool-cases, ltb, ◌==◌, min, ◌-◌,
}
use dmis_feature_branch.Base.Table.{first}
use dmis_feature_branch.Base.Sort.{lex, part_lt, sorted-In}
use dmis_feature_branch.Store.{ItemBatch}
use dmis_feature_branch.Allocation.Batches.{
  Catalogue, Item, fefo, available, get_available_batches, rule_key, is_fresh,
  sort_batches_by_allocation_rule, is_stored,
}
use dmis_feature_branch.Allocation.Auto.{allocate, auto_allocate_batches}
use dmis_feature_branch.Allocation.Greedy.{
  IsDrawable, auto_allocate-IsDrawable, auto_allocate_lem, auto_allocate_exhausts, eligible,
}

allocate-In :
    (q : ℕ) (bs : List ItemBatch) (b : ItemBatch) (n : ℕ) → In (b, n) (allocate q bs) → In b bs
unfolding allocate
allocate-In q [] b n h = absurd h
allocate-In q (x ∷ xs) b n h = elim (Bool-cases (q == 0)) [
  | inl t ↦ absurd (rw t at h)
  | inr t ↦ elim (Bool-cases (ltb 0 (min (available x) q))) [
    | inl u ↦ elim (head_or_rest t u) [
      | inl e ↦ inl (ap (λ f. f.0) e)
      | inr r ↦ inr (allocate-In (q - min (available x) q) xs b n r)
    ]
    | inr u ↦ inr (allocate-In (q - min (available x) q) xs b n (rw (t, u) at h))
  ]
]
  where
    head_or_rest :
        (q == 0) ≡ false
        → ltb 0 (min (available x) q) ≡ true
        → In (b, n) ((x, min (available x) q) ∷ allocate (q - min (available x) q) xs)
    head_or_rest t u = rw (t, u) at h

-- A batch that may be issued today: of the item, active, in stock, and not expired if the item expires.
abbrev pub IsIssuable : ℕ → Catalogue → Item → ℕ → ItemBatch → Type 0
IsIssuable today c item item_id b =
    (b.item_id ≡ item_id)
    × (b.status_code ≡ b'A')
    × (is_stored c b ≡ true)
    × (b.reserved_qty < b.usable_qty)
    × (item.can_expire_flag ≡ true → is_fresh today b ≡ true)

-- A batch that expires earlier goes first in the FEFO order.
fefo_first :
    (item : Item) (b d : ItemBatch) (e : ℕ)
    → item.issuance_order ≡ fefo
    → item.can_expire_flag ≡ true
    → d.expiry_date ≡ some e
    → (b.expiry_date ≡ none) ⊎ ((f : ℕ) × (b.expiry_date ≡ some f) × (e < f))
    → lex (rule_key item d) (rule_key item b) ≡ true
unfolding lex part_lt
fefo_first item b d e order expires de later = ground arith

module _ (today : ℕ) (c : Catalogue) (item : Item) (item_id q : ℕ) (warehouse : Option ℕ)
    (found : first (λ i. i.item_id == item_id) c.items ≡ some item) where
  eligible-IsIssuable :
      (b : ItemBatch)
      → In b (eligible today c item item_id warehouse)
      → IsIssuable today c item item_id b
  unfolding get_available_batches
  eligible-IsIssuable b h = elim (Bool-cases item.can_expire_flag) [
    | inl t ↦
        let (m, fresh) =
          (In-filter (is_fresh today) (get_available_batches c item_id warehouse none) b).0
            (rw t at h) in
        let (i, test) = (In-filter _ c.batches b).0 m in ground arith
    | inr t ↦ let (i, test) = (In-filter _ c.batches b).0 (rw t at h) in ground arith
  ]

  -- Only batches that may be issued are allocated.
  auto_allocate-IsIssuable :
      (b : ItemBatch) (n : ℕ)
      → In (b, n) (auto_allocate_batches today c item_id q warehouse)
      → IsIssuable today c item item_id b
  unfolding sort_batches_by_allocation_rule
  auto_allocate-IsIssuable b n m =
      let i =
        allocate-In q _ b n
          (subst (In (b, n)) (auto_allocate_lem today c item item_id q warehouse found) m) in
      let j = (sorted-In (rule_key item) _ b).0 i in
      eligible-IsIssuable b ((In-filter _ (eligible today c item item_id warehouse) b).0 j).0

  -- For an item that exists, only active batches of that item in an active warehouse are allocated that
  -- have stock free and, for an item that can expire, have not expired; of each a positive quantity is
  -- taken, and at most what it has free.
  pub auto_allocate-IsSafe :
      (b : ItemBatch) (n : ℕ)
      → In (b, n) (auto_allocate_batches today c item_id q warehouse)
      → IsIssuable today c item item_id b × IsDrawable (b, n)
  auto_allocate-IsSafe b n m = (
    auto_allocate-IsIssuable b n m,
    All-In IsDrawable (auto_allocate_batches today c item_id q warehouse) (b, n)
        (auto_allocate-IsDrawable today c item item_id q warehouse found) m,
  )

  -- First expired, first out: a batch is used only when every batch that expires before it is used up.
  pub auto_allocate_fefo :
      (b d : ItemBatch) (n e : ℕ)
      → item.issuance_order ≡ fefo
      → item.can_expire_flag ≡ true
      → In (b, n) (auto_allocate_batches today c item_id q warehouse)
      → In d (eligible today c item item_id warehouse)
      → d.expiry_date ≡ some e
      → (b.expiry_date ≡ none) ⊎ ((f : ℕ) × (b.expiry_date ≡ some f) × (e < f))
      → In (d, available d) (auto_allocate_batches today c item_id q warehouse)
  auto_allocate_fefo b d n e order expires m i de later =
      let (_, _, _, free, _) = eligible-IsIssuable d i in
      auto_allocate_exhausts today c item item_id q warehouse found b d n m i (omega arith)
        (fefo_first item b d e order expires de later)
