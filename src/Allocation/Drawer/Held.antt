-- ===== src/Allocation/Drawer/Held.antt =====
-- The batches that a package already holds come to the drawer.
use dmis_feature_branch.Base.{
  ℕ, ◌≡◌, ◌≢◌, ◌⊎◌, refl, sym, ap, ◌∙◌, subst, inl, inr, Bool, true, false, List, [], ◌∷◌, ◌++◌,
  leb, ◌&&◌, not, any, All, In, All-In, Bool-cases, arith,
}
use dmis_feature_branch.Base.Table.{modify}
use dmis_feature_branch.Store.{ItemBatch}
use dmis_feature_branch.Allocation.Drawer.{
  Group, is_group, empty_group, ensure_group, is_allocated, calc_available_qty, put_batch,
  group_batches,
}

-- batch_id is a key of the table.
abbrev pub IsKeyed : List ItemBatch → Type 0
IsKeyed [] = Unit
IsKeyed (b ∷ bs) = All (λ x. x.batch_id ≢ b.batch_id) bs × IsKeyed bs

pub In-append_left : {A : Type 0} (x : A) (xs ys : List A) → In x xs → In x (xs ++ ys)
In-append_left x (y ∷ xs) ys (inl e) = inl e
In-append_left x (y ∷ xs) ys (inr m) = inr (In-append_left x xs ys m)
In-append_left x [] ys m = absurd m

pub In-append_right : {A : Type 0} (x : A) (xs ys : List A) → In x ys → In x (xs ++ ys)
In-append_right x [] ys m = m
In-append_right x (y ∷ xs) ys m = inr (In-append_right x xs ys m)

pub any-In :
    {A : Type 0} (p : A → Bool) (xs : List A) → any p xs ≡ true → (x : A) × In x xs × (p x ≡ true)
any-In p [] h = cc
any-In p (x ∷ xs) h = elim (Bool-cases (p x)) [
  | inl t ↦ (x, inl refl, t)
  | inr t ↦ let (y, m, u) = any-In p xs (ground arith) in (y, inr m, u)
]

pub same_batch :
    (bs : List ItemBatch) (x y : ItemBatch)
    → IsKeyed bs
    → In x bs
    → In y bs
    → x.batch_id ≡ y.batch_id
    → x ≡ y
same_batch (b ∷ bs) x y h (inl e) (inl f) same = sym e ∙ f
same_batch (b ∷ bs) x y h (inl e) (inr m) same =
    absurd
      (All-In (λ z. z.batch_id ≢ b.batch_id) bs y h.0 m (sym same ∙ ap (λ z. z.batch_id) (sym e)))
same_batch (b ∷ bs) x y h (inr m) (inl f) same =
    absurd (All-In (λ z. z.batch_id ≢ b.batch_id) bs x h.0 m (same ∙ ap (λ z. z.batch_id) (sym f)))
same_batch (b ∷ bs) x y h (inr m) (inr n) same = same_batch bs x y h.1 m n same
same_batch [] x y h m n same = absurd m

-- what `modify` does to a member
In-modify :
    (p : Group → Bool) (f : Group → Group) (gs : List Group) (g : Group)
    → In g gs
    → In g (modify p f gs) ⊎ In (f g) (modify p f gs)
unfolding modify
In-modify p f (x ∷ gs) g (inl e) = elim (Bool-cases (p x)) [
  | inl t ↦ rw t (inr (inl (ap f e)))
  | inr t ↦ rw t (inl (inl e))
]
In-modify p f (x ∷ gs) g (inr m) = elim (Bool-cases (p x)) [
  | inl t ↦ rw t (inl (inr m))
  | inr t ↦ rw t (elim (In-modify p f gs g m) [ inl k ↦ inl (inr k) | inr k ↦ inr (inr k) ])
]
In-modify p f [] g m = absurd m

-- The row that `modify` meets is in the result.
In-modify_self :
    (p : Group → Bool) (f : Group → Group) (gs : List Group)
    → any p gs ≡ true
    → (g : Group) × In (f g) (modify p f gs)
unfolding modify
In-modify_self p f [] h = cc
In-modify_self p f (x ∷ gs) h = elim (Bool-cases (p x)) [
  | inl t ↦ rw t (x, inl refl)
  | inr t ↦ rw t (let (g, m) = In-modify_self p f gs (ground arith) in (g, inr m))
]

any-append_self : (w : ℕ) (gs : List Group) → any (is_group w) (gs ++ (empty_group w ∷ [])) ≡ true
any-append_self w [] = ground arith
any-append_self w (g ∷ gs) = ground (arith, any-append_self w gs)

pub any-ensure_group : (w : ℕ) (gs : List Group) → any (is_group w) (ensure_group w gs) ≡ true
any-ensure_group w gs = elim (Bool-cases (any (is_group w) gs)) [
  | inl t ↦ rw t t
  | inr t ↦ rw t (any-append_self w gs)
]

In-ensure_group : (w : ℕ) (gs : List Group) (g : Group) → In g gs → In g (ensure_group w gs)
In-ensure_group w gs g m = elim (Bool-cases (any (is_group w) gs)) [
  | inl t ↦ rw t m
  | inr t ↦ rw t (In-append_left g gs (empty_group w ∷ []) m)
]

module _ (remaining : ℕ) (ids : List ℕ) (current : ℕ → ℕ) where
  -- A group that has allocated batches holds the batch.
  abbrev pub IsGrouped : ItemBatch → List Group → Type 0
  IsGrouped b gs = (g : Group) × In g gs × In b g.batches × (g.has_allocated_batches ≡ true)

  put-IsGrouped :
      (b x : ItemBatch) (gs : List Group)
      → IsGrouped b gs
      → IsGrouped b (modify (is_group x.inventory_id) (put_batch remaining ids current x) gs)
  unfolding put_batch
  put-IsGrouped b x gs (g, m, held, marked) =
      let f = put_batch remaining ids current x in
      elim (In-modify (is_group x.inventory_id) f gs g m) [
        | inl k ↦ (g, k, held, marked)
        | inr k ↦ (f g, k, In-append_left b g.batches (x ∷ []) held, ground arith)
      ]

  -- The batches of the list come to a group, and those of the groups stay there.
  pub group_batches-IsGrouped :
      (b : ItemBatch) (bs : List ItemBatch) (gs : List Group)
      → is_allocated remaining ids current b ≡ true
      → In b bs ⊎ IsGrouped b gs
      → IsGrouped b (group_batches remaining ids current bs gs)
  unfolding group_batches put_batch
  group_batches-IsGrouped b [] gs allocated (inl m) = absurd m
  group_batches-IsGrouped b [] gs allocated (inr k) = k
  group_batches-IsGrouped b (x ∷ bs) gs allocated (inl (inl e)) =
      let gs' = ensure_group x.inventory_id gs in
      let f = put_batch remaining ids current x in
      let own : is_allocated remaining ids current x ≡ true =
        subst (λ y. is_allocated remaining ids current y ≡ true) (sym e) allocated in
      let (g, m) =
        In-modify_self (is_group x.inventory_id) f gs' (any-ensure_group x.inventory_id gs) in
      let put : (leb (calc_available_qty remaining ids current x) 0
            && not (is_allocated remaining ids current x))
          ≡ false =
        ground arith in
      rw put (
        group_batches-IsGrouped b bs (modify (is_group x.inventory_id) f gs') allocated
          (inr (f g, m, In-append_right b g.batches (x ∷ []) (inl e), ground arith)))
  group_batches-IsGrouped b (x ∷ bs) gs allocated (inl (inr m)) =
      group_batches-IsGrouped b bs _ allocated (inl m)
  group_batches-IsGrouped b (x ∷ bs) gs allocated (inr (g, m, held, marked)) =
      let gs' = ensure_group x.inventory_id gs in
      let kept : IsGrouped b gs' = (g, In-ensure_group x.inventory_id gs g m, held, marked) in
      elim (Bool-cases (
        leb (calc_available_qty remaining ids current x) 0
        && not (is_allocated remaining ids current x))) [
          | inl t ↦ rw t (group_batches-IsGrouped b bs gs' allocated (inr kept))
          | inr t ↦
              rw t (group_batches-IsGrouped b bs _ allocated (inr (put-IsGrouped b x gs' kept)))
        ]
