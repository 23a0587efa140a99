-- ===== src/DonationIntake/Recorded.antt =====
-- An entry that succeeds records every good of the donation in full.
use dmis_feature_branch.Base.{
  ℕ, ◌≡◌, refl, ap, ◌∙◌, inl, inr, String, Option, none, some, List, [], ◌∷◌, map, arith, ◌==◌,
  filter, total, All, if◌then◌else◌, Bool-cases, total-filter-append, filter-not, append_nil,
}
use dmis_feature_branch.Base.Text.{strip}
use dmis_feature_branch.Base.Table.{first, first-modify_self, first_holds, first-append_new}
use dmis_feature_branch.Store.{Text}
use dmis_feature_branch.DonationIntake.Rows.{
  Warehouse, Donation, DonationIntake, DonationIntakeItem, Depot, is_intake, of_intake,
  intake_total,
}
use dmis_feature_branch.DonationIntake.Check.{upper_or_none}
use dmis_feature_branch.DonationIntake.Failures.{EntryError}
use dmis_feature_branch.DonationIntake.Line.{EntryLine}
use dmis_feature_branch.DonationIntake.Entry.{
  IntakeForm, Good, goods_items, entry_date, enter_items, entry_errors, comments_errors,
  duplicate_errors, mismatch_errors, actual_qty,
}
use dmis_feature_branch.DonationIntake.Record.{
  record_line, new_intake, update_intake, write_intake, record_lines, entry_written, write_entry,
  process_entry_submission, existing_open, entry_found, intake_form, commit_entry,
}
use dmis_feature_branch.DonationIntake.Kept.{Settled, lines_of}

-- what the lines of an intake hold of an item
abbrev pub of_good : ℕ → DonationIntakeItem → ℕ
of_good item r = if r.item_id == item then intake_total r else 0

-- The lines recorded of each good add up to the quantity that was donated.
abbrev pub AllRecordedInFull : ℕ → ℕ → Depot → List Good → Type 0
AllRecordedInFull donation warehouse t =
    All (λ g. total (of_good g.0.item_id) (lines_of donation warehouse t) ≡ g.0.item_qty)

mismatch_errors_none :
    (lines : List EntryLine) (goods : List Good)
    → mismatch_errors lines goods ≡ []
    → All (λ g. actual_qty g.0.item_id lines ≡ g.0.item_qty) goods
unfolding mismatch_errors
mismatch_errors_none lines [] h = tt
mismatch_errors_none lines ((di, i) ∷ goods) h =
    elim (Bool-cases (actual_qty di.item_id lines == di.item_qty)) [
      | inl t ↦ (ground arith, mismatch_errors_none lines goods (ground arith))
      | inr t ↦ ground arith
    ]

module _ (upper : Text → Text) (today : ℕ) where
  entry_errors_none :
      (f : IntakeForm) (goods : List Good)
      → entry_errors upper today f goods ≡ []
      → All
          (λ g. actual_qty g.0.item_id (enter_items upper today f.fields goods).1 ≡ g.0.item_qty)
          goods
  unfolding entry_errors
  entry_errors_none f goods h =
      let (errors, lines) = enter_items upper today f.fields goods in
      let h1 = (append_nil (entry_date today f.intake_date).0 _ h).1 in
      let h2 = (append_nil (comments_errors (strip f.comments_text)) _ h1).1 in
      let h3 = (append_nil errors _ h2).1 in
      let h4 = (append_nil (duplicate_errors [] lines) _ h3).1 in
      mismatch_errors_none lines goods (append_nil (mismatch_errors lines goods) _ h4).0

module _ (user : String) (now : ℕ) (donation warehouse : ℕ) where
  total-record_line :
      (item : ℕ) (lines : List EntryLine)
      → total (of_good item) (
          filter
            (of_intake donation warehouse)
            (map (record_line user now donation warehouse) lines))
        ≡ actual_qty item lines
  unfolding record_line
  total-record_line item [] = refl
  total-record_line item (l ∷ ls) = ground (arith, total-record_line item ls)

-- Every good of the donation is recorded in full under the intake, the intake is on file as a draft
-- or as submitted, and the stock is as it was.
abbrev pub IsEntered : ℕ → ℕ → IntakeForm → Depot → Depot → Type 0
IsEntered donation warehouse f s t =
    AllRecordedInFull donation warehouse t (goods_items donation s.items s.donation_items)
    × ((i : DonationIntake) × (first (is_intake donation warehouse) t.intakes ≡ some i)
        × (i.status_code ≡ (if f.is_draft then b'I' else b'C')))
    × (t.stock ≡ s.stock)

module _ (user : String) (now : ℕ) (donation warehouse : ℕ) (upper : Text → Text) (today : ℕ)
    (accepts : Depot → Option String) (s : Depot)
    (kept : first (is_intake donation warehouse) s.intakes ≡ none
      → lines_of donation warehouse s ≡ []) where
  -- No line of the intake stays when the entry is written.
  write_intake_clears :
      (o : Option DonationIntake) (day : ℕ) (comments : Option Text) (status : ℕ)
      → first (is_intake donation warehouse) s.intakes ≡ o
      → lines_of donation warehouse
          (write_intake user now donation warehouse o day comments status s)
        ≡ []
  unfolding write_intake
  write_intake_clears none day comments status e = kept e
  write_intake_clears (some i) day comments status e =
      filter-not (of_intake donation warehouse) s.intake_items

  write_intake_header :
      (o : Option DonationIntake) (day : ℕ) (comments : Option Text) (status : ℕ)
      → first (is_intake donation warehouse) s.intakes ≡ o
      → (i : DonationIntake) × (first
            (is_intake donation warehouse)
            (write_intake user now donation warehouse o day comments status s).intakes
          ≡ some i)
        × (i.status_code ≡ status)
  unfolding write_intake new_intake update_intake
  write_intake_header none day comments status e = (
    new_intake user now donation warehouse day comments status,
    first-append_new (is_intake donation warehouse) s.intakes _ e (ground arith),
    refl,
  )
  write_intake_header (some i) day comments status e = (
    update_intake user now donation warehouse day comments status i,
    first-modify_self (is_intake donation warehouse)
        (update_intake user now donation warehouse day comments status) s.intakes i e
        (first_holds (is_intake donation warehouse) s.intakes i e),
    refl,
  )

  write_intake_stock :
      (o : Option DonationIntake) (day : ℕ) (comments : Option Text) (status : ℕ)
      → (write_intake user now donation warehouse o day comments status s).stock ≡ s.stock
  unfolding write_intake
  write_intake_stock none day comments status = refl
  write_intake_stock (some i) day comments status = refl

  total-record_lines :
      (lines : List EntryLine) (item : ℕ) (t : Depot)
      → lines_of donation warehouse t ≡ []
      → total
          (of_good item)
          (lines_of donation warehouse (record_lines user now donation warehouse lines t))
        ≡ actual_qty item lines
  unfolding record_lines
  total-record_lines lines item t e =
      let rows = map (record_line user now donation warehouse) lines in
      omega (
        arith,
        total-filter-append (of_intake donation warehouse) (of_good item) t.intake_items rows,
        ap (total (of_good item)) e,
        total-record_line user now donation warehouse item lines,
      )

  entry_written-IsEntered :
      (o : Option DonationIntake) (f : IntakeForm) (lines : List EntryLine)
      → first (is_intake donation warehouse) s.intakes ≡ o
      → All
          (λ g. actual_qty g.0.item_id lines ≡ g.0.item_qty)
          (goods_items donation s.items s.donation_items)
      → IsEntered donation warehouse f s
          (entry_written user now donation warehouse upper today accepts o f lines s)
  unfolding entry_written record_lines
  entry_written-IsEntered o f lines e full =
      let day = (entry_date today f.intake_date).1 in
      let comments = upper_or_none upper (strip f.comments_text) in
      let status = if f.is_draft then b'I' else b'C' in
      let t = write_intake user now donation warehouse o day comments status s in
      (
        All-imp_good lines t (write_intake_clears o day comments status e) _ full,
        write_intake_header o day comments status e,
        write_intake_stock o day comments status,
      )
    where
      All-imp_good :
          (lines : List EntryLine) (t : Depot)
          → lines_of donation warehouse t ≡ []
          → (goods : List Good) → All (λ g. actual_qty g.0.item_id lines ≡ g.0.item_qty) goods
          → AllRecordedInFull donation warehouse
              (record_lines user now donation warehouse lines t)
              goods
      All-imp_good lines t e [] h = tt
      All-imp_good lines t e (g ∷ goods) h =
          (total-record_lines lines g.0.item_id t e ∙ h.0, All-imp_good lines t e goods h.1)

  process_entry-IsEntered :
      (o : Option DonationIntake) (f : IntakeForm)
      → first (is_intake donation warehouse) s.intakes ≡ o
      → Settled s
          (IsEntered donation warehouse f s)
          (process_entry_submission user now donation warehouse upper today accepts o f s)
  unfolding process_entry_submission
  process_entry-IsEntered o f e =
      branch (entry_errors upper today f goods) (entry_errors_none upper today f goods)
    where
      goods : List Good
      goods = goods_items donation s.items s.donation_items

      lines : List EntryLine
      lines = (enter_items upper today f.fields goods).1

      answered :
          (t : Depot) (answer : Option String)
          → IsEntered donation warehouse f s t
          → Settled s
              (IsEntered donation warehouse f s)
              (commit_entry user now donation warehouse upper today accepts s t answer)
      answered t none h = h
      answered t (some x) h = refl

      branch :
          (errors : List EntryError)
          → (errors ≡ [] → All (λ g. actual_qty g.0.item_id lines ≡ g.0.item_qty) goods)
          → Settled s
              (IsEntered donation warehouse f s)
              (write_entry user now donation warehouse upper today accepts o f errors lines s)
      branch [] h =
          let t = entry_written user now donation warehouse upper today accepts o f lines s in
          answered t (accepts t) (entry_written-IsEntered o f lines e (h refl))
      branch (x ∷ xs) h = refl

  existing_open-IsEntered :
      (o : Option DonationIntake) (f : IntakeForm)
      → first (is_intake donation warehouse) s.intakes ≡ o
      → Settled s
          (IsEntered donation warehouse f s)
          (existing_open user now donation warehouse upper today accepts o f s)
  existing_open-IsEntered none f e = process_entry-IsEntered none f e
  existing_open-IsEntered (some i) f e = elim (Bool-cases (i.status_code == b'V')) [
    | inl t ↦ rw t refl
    | inr t ↦ rw t (process_entry-IsEntered (some i) f e)
  ]

  entry_found-IsEntered :
      (d : Option Donation) (w : Option Warehouse) (f : IntakeForm)
      → Settled s
          (IsEntered donation warehouse f s)
          (entry_found user now donation warehouse upper today accepts d w f s)
  entry_found-IsEntered none w f = refl
  entry_found-IsEntered (some d) none f = refl
  entry_found-IsEntered (some d) (some w) f = elim (Bool-cases w.allow_donation_intake) [
    | inr t ↦ rw t refl
    | inl t ↦ rw t (elim (Bool-cases (d.status_code == b'V')) [
      | inr u ↦ rw u refl
      | inl u ↦
          rw u (existing_open-IsEntered (first (is_intake donation warehouse) s.intakes) f refl)
    ])
  ]

  pub intake_form-IsEntered :
      (f : IntakeForm)
      → Settled s
          (IsEntered donation warehouse f s)
          (intake_form user now donation warehouse upper today accepts f s)
  unfolding intake_form
  intake_form-IsEntered f =
      entry_found-IsEntered (first (λ d. d.donation_id == donation) s.donations)
        (first (λ w. w.warehouse_id == warehouse) s.warehouses) f
