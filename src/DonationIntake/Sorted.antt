-- ===== src/DonationIntake/Sorted.antt =====
-- A line that passes the tests of a verification splits the quantity on file into three parts.
use dmis_feature_branch.Base.{
  ℕ, ◌+◌, ◌<◌, ◌≡◌, refl, ap, Option, none, some, List, [], ◌∷◌, arith, ◌==◌, ◌&&◌, total, ⊤,
  if◌then◌else◌,
}
use dmis_feature_branch.Base.Table.{first}
use dmis_feature_branch.Store.{Text, ItemBatch, StockKey}
use dmis_feature_branch.Store.Query.{in_stock}
use dmis_feature_branch.DonationIntake.Rows.{
  Item, DonationItem, DonationIntakeItem, Depot, intake_total, amount,
}
use dmis_feature_branch.DonationIntake.Check.{
  VerifyForm, LineError, Verified, Checked, passed, failed, then_check, usable_after, check_item,
  check_line, collect, check_usable, check_dates, check_expiry, get_or, check_lines, deductions,
  verify_batch_date, verify_expiry_date, verified,
}

-- all that a batch holds
abbrev pub held : ItemBatch → ℕ
held b = b.usable_qty + b.defective_qty + b.expired_qty

-- what the batches of an item in a warehouse hold
abbrev pub held_total : StockKey → Depot → ℕ
held_total k s = total (λ b. if in_stock k b then held b else 0) s.stock.batches

-- what the lines of an intake add to it
abbrev pub of_item : StockKey → ℕ → DonationIntakeItem → ℕ
of_item k warehouse r =
    if r.item_id == k.item_id && warehouse == k.inventory_id then intake_total r else 0

abbrev pub line_total : Verified → ℕ
line_total v = v.usable_qty + v.defective_qty + v.expired_qty

abbrev pub of_line : StockKey → ℕ → Verified → ℕ
of_line k warehouse v =
    if v.intake_item.item_id == k.item_id && warehouse == k.inventory_id then line_total v else 0

-- The line's quantities are those of the line on file, some of it usable.
abbrev pub IsSorted : DonationIntakeItem → Verified → Type 0
IsSorted r v = (v.intake_item ≡ r) × (line_total v ≡ intake_total r) × (0 < v.usable_qty)

-- `P` holds of what passed the tests.
abbrev pub Passed {ℓ} : {A : Type 0} → (A → Type ℓ) → Checked A → Type ℓ
Passed P (passed a) = P a
Passed P (failed e) = Unit

then_check-Passed {ℓ κ} :
    {A B : Type 0} (Q : A → Type κ) (P : B → Type ℓ) (c : Checked A) (f : A → Checked B)
    → Passed Q c
    → ((a : A) → Q a → Passed P (f a))
    → Passed P (then_check c f)
then_check-Passed Q P (passed a) f q h = h a q
then_check-Passed Q P (failed e) f q h = tt

Passed-any : {A : Type 0} (c : Checked A) → Passed {A = A} (λ _. ⊤) c
Passed-any (passed a) = tt
Passed-any (failed e) = tt

abbrev IsLeft : DonationIntakeItem → ℕ × ℕ → ℕ → Type 0
IsLeft r (d, e) u = (u + d + e ≡ intake_total r) × (0 < u)

usable_after-IsLeft :
    (r : DonationIntakeItem) (o : Option DonationItem) (de : ℕ × ℕ)
    → Passed (IsLeft r de) (usable_after r o de)
unfolding usable_after
usable_after-IsLeft r none (d, e) = tt
usable_after-IsLeft r (some di) (d, e) = ground arith

collected :
    (r : DonationIntakeItem) (c : Checked Verified) (rest : List (ℕ × LineError) × List Verified)
    (k : StockKey) (warehouse m : ℕ)
    → Passed (IsSorted r) c
    → (rest.0 ≡ [] → total (of_line k warehouse) rest.1 ≡ m)
    → (collect r c rest).0 ≡ []
    → total (of_line k warehouse) (collect r c rest).1 ≡ of_item k warehouse r + m
collected r (passed v) (errors, lines) k w m (same, sum, positive) h e =
    let item = ap (λ r. r.item_id) same in ground (arith, h e)
collected r (failed x) (errors, lines) k w m s h e = cc

module _ (upper : Text → Text) (today : ℕ) where
  verified-IsSorted :
      (r : DonationIntakeItem) (f : VerifyForm) (de : ℕ × ℕ) (u bd : ℕ) (ed : Option ℕ)
      → IsLeft r de u
      → Passed (IsSorted r) (passed (verified upper today r f de u bd ed))
  verified-IsSorted r f (d, e) u bd ed left = (refl, left.0, left.1)

  check_usable-IsSorted :
      (item : Item) (donated : List DonationItem) (f : VerifyForm) (r : DonationIntakeItem)
      (de : ℕ × ℕ)
      → Passed (IsSorted r) (check_usable upper today item donated f r de)
  unfolding check_usable check_dates check_expiry
  check_usable-IsSorted item donated f r de =
      then_check-Passed (IsLeft r de) (IsSorted r)
        (usable_after r (first (λ di. di.item_id == r.item_id) donated) de)
        (check_dates upper today item f r de)
        (usable_after-IsLeft r (first (λ di. di.item_id == r.item_id) donated) de)
        (λ u left.
          then_check-Passed (λ _. ⊤) (IsSorted r) (verify_batch_date today r f.batch_date)
            (check_expiry upper today item f r de u)
            (Passed-any (verify_batch_date today r f.batch_date))
            (λ bd _.
              then_check-Passed (λ _. ⊤) (IsSorted r)
                (verify_expiry_date today item.can_expire_flag bd r f.expiry_date)
                (λ ed. passed (verified upper today r f de u bd ed))
                (Passed-any (verify_expiry_date today item.can_expire_flag bd r f.expiry_date))
                (λ ed _. verified-IsSorted r f de u bd ed left)))

  check_item-IsSorted :
      (item : Item) (donated : List DonationItem) (f : VerifyForm) (r : DonationIntakeItem)
      → Passed (IsSorted r) (check_item upper today item donated f r)
  unfolding check_item
  check_item-IsSorted item donated f r =
      let de =
        deductions (get_or (amount r.defective_qty) f.defective_qty)
          (get_or (amount r.expired_qty) f.expired_qty) in
      then_check-Passed (λ _. ⊤) (IsSorted r) de (check_usable upper today item donated f r)
        (Passed-any de) (λ de _. check_usable-IsSorted item donated f r de)

  check_line-IsSorted :
      (item : Option Item) (donated : List DonationItem) (f : VerifyForm) (r : DonationIntakeItem)
      → Passed (IsSorted r) (check_line upper today item donated f r)
  check_line-IsSorted none donated f r = tt
  check_line-IsSorted (some item) donated f r = check_item-IsSorted item donated f r

  -- Lines that all pass carry the quantities of the intake, item by item.
  pub total-check_lines :
      (items : List Item) (donated : List DonationItem) (form : ℕ → VerifyForm)
      (rs : List DonationIntakeItem) (k : StockKey) (warehouse : ℕ)
      → (check_lines upper today items donated form rs).0 ≡ []
      → total (of_line k warehouse) (check_lines upper today items donated form rs).1
        ≡ total (of_item k warehouse) rs
  unfolding check_lines
  total-check_lines items donated form [] k w h = refl
  total-check_lines items donated form (r ∷ rs) k w h =
      collected r _ (check_lines upper today items donated form rs) k w _
        (check_line-IsSorted (first (λ i. i.item_id == r.item_id) items) donated (form r.item_id) r)
        (total-check_lines items donated form rs k w) h
