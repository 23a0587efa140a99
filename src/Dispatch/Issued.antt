-- ===== src/Dispatch/Issued.antt =====
-- What `_update_dispatch_records` adds to the issued quantity of each request item.
use dmis_feature_branch.Base.{
  ℕ, ◌+◌, ◌≡◌, sym, ◌∙◌, subst, ==_iff, inl, inr, String, some, List, [], ◌∷◌, arith, ltb,
  Bool-cases, if◌then◌else◌, total, ◌==◌,
}
use dmis_feature_branch.Base.Dict.{Dict, lookup, insert, add_to, get_or_zero}
use dmis_feature_branch.Base.Table.{
  first, modify, first-modify_self, first-modify_other, first_holds,
}
use dmis_feature_branch.Store.{ReliefRqstItem}
use dmis_feature_branch.Dispatch.Plan.{LmEntry}
use dmis_feature_branch.Dispatch.Steps.{id_eq, is_rqst_item}
use dmis_feature_branch.Dispatch.Submit.{mark_issued, item_totals, issue_items}

-- what a dict holds under a key
abbrev pub held_for : ℕ → Dict ℕ ℕ → ℕ
held_for item = total (λ e. if e.0 == item then e.1 else 0)

held_for-insert :
    (item j q : ℕ) (d : Dict ℕ ℕ)
    → held_for item (insert j (get_or_zero j d + q) d)
      ≡ held_for item d + (if j == item then q else 0)
unfolding insert lookup
held_for-insert item j q [] = ground arith
held_for-insert item j q ((i, v) ∷ d) = ground (arith, held_for-insert item j q d)

-- what a plan sends of an item
abbrev pub sent_of : ℕ → List LmEntry → ℕ
sent_of item = total (λ a. if a.item_id == item then a.lm_qty else 0)

pub item_totals-sent_of :
    (item : ℕ) (lm : List LmEntry) (d : Dict ℕ ℕ)
    → held_for item (item_totals lm d) ≡ held_for item d + sent_of item lm
unfolding item_totals add_to
item_totals-sent_of item [] d = omega arith
item_totals-sent_of item (a ∷ lm) d = elim (Bool-cases (ltb 0 a.lm_qty)) [
  | inl t ↦ ground (
    arith,
    item_totals-sent_of item lm (add_to a.item_id a.lm_qty d),
    held_for-insert item a.item_id a.lm_qty d,
  )
  | inr t ↦ ground (arith, item_totals-sent_of item lm d)
]

module _ (user : String) (now : ℕ) where
  pub issue_items_found :
      (rqst item : ℕ) (d : Dict ℕ ℕ) (rs : List ReliefRqstItem) (r : ReliefRqstItem)
      → first (is_rqst_item rqst item) rs ≡ some r
      → (r' : ReliefRqstItem) × (first (is_rqst_item rqst item) (issue_items user now rqst d rs)
          ≡ some r')
        × (r'.issue_qty ≡ r.issue_qty + held_for item d)
  unfolding issue_items mark_issued
  issue_items_found rqst item [] rs r e = (r, e, omega arith)
  issue_items_found rqst item ((j, q) ∷ d) rs r e =
      let f = mark_issued user now q in
      elim (Bool-cases (j == item)) [
        | inl t ↦
            let step : first (is_rqst_item rqst item) (modify (is_rqst_item rqst j) f rs)
                ≡ some (f r) =
              subst
                (λ i.
                  first (is_rqst_item rqst item) (modify (is_rqst_item rqst i) f rs) ≡ some (f r))
                (sym ((==_iff j item).0 t))
                (first-modify_self (is_rqst_item rqst item) f rs r e
                  (first_holds (is_rqst_item rqst item) rs r e)) in
            let (r', found, total') = issue_items_found rqst item d _ (f r) step in
            (r', found, ground arith)
        | inr t ↦
            let step : first (is_rqst_item rqst item) (modify (is_rqst_item rqst j) f rs) ≡ some r =
              first-modify_other (is_rqst_item rqst j) (is_rqst_item rqst item) f rs
                (λ x u. ground arith)
              ∙ e in
            let (r', found, total') = issue_items_found rqst item d _ r step in
            (r', found, ground arith)
      ]
