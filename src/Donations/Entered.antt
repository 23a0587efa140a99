-- ===== src/Donations/Entered.antt =====
-- What a donation looks like when it has been entered.
use dmis_feature_branch.Base.{
  ℕ, ◌≡◌, refl, String, false, Option, none, some, List, [], ◌∷◌, ◌++◌, map, arith, leb, ◌&&◌, All,
  ⊤, append_nil, if◌then◌else◌,
}
use dmis_feature_branch.Base.Action.{Result, ok, err}
use dmis_feature_branch.Store.{Text}
use dmis_feature_branch.DonationIntake.Rows.{
  Donation, DonationItem, DonationType, goods, funds, unknown, Depot, Amount, DateField, blank,
  malformed, date,
}
use dmis_feature_branch.Donations.Form.{
  HeaderForm, RowForm, type_invalid, FormError, funds_without_cost, ItemInfo, one_unit, when,
  is_unknown, is_funds, is_goods_type, is_missing, quantity_value, type_errors, item_info,
  item_rows, read_rows, form_errors, header_errors,
}
use dmis_feature_branch.Donations.Verify.{VerifyFailure, enforced_qty}
use dmis_feature_branch.Donations.Create.{
  entry_quantity_errors, entry_cost_errors, entry_row_errors, funds_errors, entered_item,
  entered_donation, write_entered, finish_entered, enter_checked, enter_form, enter_dated,
  create_donation,
}
use dmis_feature_branch.Donations.Checked.{Fits, InfoFits, read_rows-All}

-- what the first tests establish: all but the cost of funds
abbrev pub AlmostFits : DonationType → ℕ → Option ℕ → Option ℕ → Type 0
AlmostFits goods qty uom currency = (is_missing uom ≡ false) × (currency ≡ none)
AlmostFits funds qty uom currency = (qty ≡ one_unit) × (is_missing currency ≡ false) × (uom ≡ none)
AlmostFits unknown qty uom currency = ⊥

abbrev pub InfoAlmostFits : ItemInfo → Type 0
InfoAlmostFits i = AlmostFits i.donation_type (enforced_qty i) i.uom_code i.currency_code

AlmostFits-of_errors :
    (t : DonationType) (q : Option Amount) (uom currency : Option ℕ)
    → when (is_unknown t) type_invalid ≡ []
    → type_errors t uom currency ≡ []
    → AlmostFits t
        (if is_funds t then one_unit else quantity_value q)
        (if is_goods_type t then uom else none)
        (if is_funds t then currency else none)
unfolding type_errors
AlmostFits-of_errors goods q none currency a b = cc
AlmostFits-of_errors goods q (some u) currency a b = (refl, refl)
AlmostFits-of_errors funds q uom none a b = cc
AlmostFits-of_errors funds q uom (some k) a b = (refl, refl, refl)
AlmostFits-of_errors unknown q uom currency a b = cc

item_info-InfoAlmostFits :
    (r : RowForm) (id : ℕ) → entry_row_errors r id ≡ [] → InfoAlmostFits (item_info r id)
unfolding entry_row_errors item_info
item_info-InfoAlmostFits r id h =
    let (known, h1) = append_nil (when (is_unknown r.donation_type) type_invalid) _ h in
    let (counted, h2) = append_nil (entry_quantity_errors r.quantity) _ h1 in
    let (priced, typed) = append_nil (entry_cost_errors r.item_cost) _ h2 in
    AlmostFits-of_errors r.donation_type r.quantity r.uom_code r.currency_code known typed

Fits-of_cost :
    (t : DonationType) (e : FormError) (qty cost : ℕ) (uom currency : Option ℕ)
    → AlmostFits t qty uom currency
    → when (is_funds t && leb cost 0) e ≡ []
    → Fits t qty cost uom currency
Fits-of_cost goods e qty cost uom currency a h = a
Fits-of_cost funds e qty cost uom currency a h = (a.0, ground arith, a.1, a.2)
Fits-of_cost unknown e qty cost uom currency a h = absurd a

funds_errors-InfoFits :
    (infos : List ItemInfo)
    → All InfoAlmostFits infos
    → funds_errors infos ≡ []
    → All InfoFits infos
unfolding funds_errors
funds_errors-InfoFits [] a h = tt
funds_errors-InfoFits (i ∷ is) a h =
    let (own, left) =
      append_nil
        (when (is_funds i.donation_type && leb i.item_cost 0) (funds_without_cost i.item_id)) _ h in
    (
      Fits-of_cost i.donation_type (funds_without_cost i.item_id) (enforced_qty i) i.item_cost
          i.uom_code i.currency_code a.0 own,
      funds_errors-InfoFits is a.1 left,
    )

-- an item of the donation `d` that is on file for the first time
abbrev pub IsEnteredItem : ℕ → DonationItem → Type 0
IsEnteredItem d r =
    (r.donation_id ≡ d)
    × (r.status_code ≡ b'P')
    × Fits r.donation_type r.item_qty r.item_cost r.uom_code r.currency_code

-- The donation `d` has been added as entered, with items that fit their types, and nothing else is
-- changed.
abbrev pub IsDonated : ℕ → Depot → Depot → Type 0
IsDonated d s t =
    (n : Donation) × (rows : List DonationItem) × (t
      ≡ record s { donations = s.donations ++ (n ∷ []); donation_items = s.donation_items ++ rows })
    × (n.donation_id ≡ d)
    × (n.status_code ≡ b'E')
    × All (IsEnteredItem d) rows

-- How a call ended: it changed nothing, or what it wrote satisfies `P`.
abbrev pub Finished : Depot → (Depot → Type 0) → Result VerifyFailure ⊤ × Depot → Type 0
Finished s P (ok a, t) = P t
Finished s P (err e, t) = t ≡ s

module _ (user : String) (now : ℕ) (upper : Text → Text) (fresh : ℕ) where
  entered_item-IsEnteredItem :
      (infos : List ItemInfo)
      → All InfoFits infos
      → All (IsEnteredItem fresh) (map (entered_item user now upper fresh) infos)
  unfolding entered_item
  entered_item-IsEnteredItem [] a = tt
  entered_item-IsEnteredItem (i ∷ is) a = ((refl, refl, a.0), entered_item-IsEnteredItem is a.1)

  write_entered-IsDonated :
      (f : HeaderForm) (infos : List ItemInfo) (s : Depot)
      → All InfoFits infos
      → IsDonated fresh s (write_entered user now upper fresh f infos s)
  unfolding write_entered entered_donation
  write_entered-IsDonated f infos s a = (
    entered_donation user now upper fresh f,
    map (entered_item user now upper fresh) infos,
    refl,
    refl,
    refl,
    entered_item-IsEnteredItem infos a,
  )

  module _ (today : ℕ) (accepts : Depot → Option String) (documents : Option String)
      (s : Depot) where
    finish_entered-IsDonated :
        (t : Depot) (docs answer : Option String)
        → IsDonated fresh s t
        → Finished s
            (IsDonated fresh s)
            (finish_entered user now upper fresh today accepts documents s t docs answer)
    finish_entered-IsDonated t (some e) answer h = refl
    finish_entered-IsDonated t none (some e) h = refl
    finish_entered-IsDonated t none none h = h

    enter_checked-IsDonated :
        (f : HeaderForm) (errors later_errors : List FormError) (infos : List ItemInfo)
        → (errors ≡ [] → later_errors ≡ [] → All InfoFits infos)
        → Finished s (IsDonated fresh s) (
            enter_checked user now upper fresh today accepts documents f errors later_errors infos
              s)
    enter_checked-IsDonated f (e ∷ es) later_errors infos h = refl
    enter_checked-IsDonated f [] (e ∷ es) infos h = refl
    enter_checked-IsDonated f [] [] infos h =
        let t = write_entered user now upper fresh f infos s in
        finish_entered-IsDonated t documents (accepts t)
          (write_entered-IsDonated f infos s (h refl refl))

    enter_form-IsDonated :
        (f : HeaderForm) (rows : List RowForm)
        → Finished s
            (IsDonated fresh s)
            (enter_form user now upper fresh today accepts documents f rows s)
    unfolding form_errors
    enter_form-IsDonated f rows =
        let read = read_rows entry_row_errors [] (item_rows rows) in
        enter_checked-IsDonated f (form_errors today f read) (funds_errors read.1) read.1 (λ h k.
          funds_errors-InfoFits read.1
            (read_rows-All InfoAlmostFits entry_row_errors item_info-InfoAlmostFits []
              (item_rows rows) (append_nil read.0 _ (append_nil (header_errors today f) _ h).1).0)
            k)

    enter_dated-IsDonated :
        (d : DateField) (f : HeaderForm) (rows : List RowForm)
        → Finished s
            (IsDonated fresh s)
            (enter_dated user now upper fresh today accepts documents d f rows s)
    enter_dated-IsDonated malformed f rows = refl
    enter_dated-IsDonated blank f rows = enter_form-IsDonated f rows
    enter_dated-IsDonated (date d) f rows = enter_form-IsDonated f rows

    -- An entry that succeeds adds one donation, as entered, and items of it that await verification
    -- and fit their types: goods have a unit and no currency; funds have the quantity 1.00, a positive
    -- cost and a currency, and no unit. Nothing else is changed, and nothing at all if it fails.
    pub create_donation-IsDonated :
        (f : HeaderForm) (rows : List RowForm)
        → Finished s
            (IsDonated fresh s)
            (create_donation user now upper fresh today accepts documents f rows s)
    unfolding create_donation
    create_donation-IsDonated f rows = enter_dated-IsDonated f.received_date f rows
