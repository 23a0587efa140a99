-- ===== src/Donations/Checked.antt =====
-- What a verified donation looks like, and when a verification goes through.
use dmis_feature_branch.Base.{
  ℕ, ◌<◌, ◌≡◌, refl, sym, ap, ◌∙◌, subst, inl, inr, String, Bool, true, false, not, Option, none,
  some, List, [], ◌∷◌, map, arith, ◌⊎◌, ◌==◌, any, filter, if◌then◌else◌, All, In, ⊤, Bool-cases,
  append_nil, All-In, All-filter_own,
}
use dmis_feature_branch.Base.Table.{
  first, upsert, upserted, first-upsert_self, first-upsert_other, first_holds, first-All,
}
use dmis_feature_branch.Base.Action.{Result, ok, err}
use dmis_feature_branch.Store.{Text}
use dmis_feature_branch.DonationIntake.Rows.{
  Item, Donation, DonationItem, DonationType, goods, funds, unknown, Depot, Amount, invalid,
  negative, amount, DateField, blank, malformed, date,
}
use dmis_feature_branch.Donations.Form.{
  HeaderForm, RowForm, RowError, FormError, row_error, ItemInfo, one_unit, is_funds, is_goods_type,
  is_unknown, is_missing, quantity_value, value, quantity_errors, item_cost_errors, type_errors,
  row_errors, item_info, item_rows, read_rows, form_errors, header_errors, when, add_row, add_error,
  duplicate_item,
}
use dmis_feature_branch.Donations.Verify.{
  VerifyFailure, is_donation_item, enforced_qty, update_item_row, new_item_row, is_dropped,
  write_items, write_verified, finish_verified, verify_checked, verify_form, dated, donation_found,
  verify_donation_detail,
}

-- c_donation_item_type_fields and the rules for funds: goods have a unit and no currency; funds have
-- the quantity 1.00, a positive cost and a currency, and no unit.
abbrev pub Fits : DonationType → ℕ → ℕ → Option ℕ → Option ℕ → Type 0
Fits goods qty cost uom currency = (is_missing uom ≡ false) × (currency ≡ none)
Fits funds qty cost uom currency =
    (qty ≡ one_unit) × (0 < cost) × (is_missing currency ≡ false) × (uom ≡ none)
Fits unknown qty cost uom currency = ⊥

abbrev pub InfoFits : ItemInfo → Type 0
InfoFits i = Fits i.donation_type (enforced_qty i) i.item_cost i.uom_code i.currency_code

Fits-of_errors :
    (t : DonationType) (q : Option Amount) (c : Amount) (uom currency : Option ℕ)
    → when (is_unknown t) RowError.type_invalid ≡ []
    → item_cost_errors t c ≡ []
    → type_errors t uom currency ≡ []
    → Fits t
        (if is_funds t then one_unit else quantity_value q)
        (value c)
        (if is_goods_type t then uom else none)
        (if is_funds t then currency else none)
unfolding item_cost_errors type_errors
Fits-of_errors goods q c none currency a b d = cc
Fits-of_errors goods q c (some u) currency a b d = (refl, refl)
Fits-of_errors funds q c uom none a b d = cc
Fits-of_errors funds q invalid uom (some k) a b d = cc
Fits-of_errors funds q negative uom (some k) a b d = cc
Fits-of_errors funds q (amount v) uom (some k) a b d = (refl, ground arith, refl, refl)
Fits-of_errors unknown q c uom currency a b d = cc

item_info-InfoFits :
    (items : List Item) (r : RowForm) (id : ℕ)
    → row_errors items r id ≡ []
    → InfoFits (item_info r id)
unfolding row_errors item_info
item_info-InfoFits items r id h =
    let (known, h1) = append_nil (when (is_unknown r.donation_type) RowError.type_invalid) _ h in
    let (counted, h2) = append_nil (quantity_errors r.donation_type r.quantity) _ h1 in
    let (priced, h3) = append_nil (item_cost_errors r.donation_type r.item_cost) _ h2 in
    let (typed, h4) = append_nil (type_errors r.donation_type r.uom_code r.currency_code) _ h3 in
    Fits-of_errors r.donation_type r.quantity r.item_cost r.uom_code r.currency_code known priced
      typed

map_nil : (n : ℕ) (es : List RowError) → map (row_error n) es ≡ [] → es ≡ []
map_nil n [] h = refl
map_nil n (e ∷ es) h = cc

row_read :
    (P : ItemInfo → Type 0) (b : Bool) (n : ℕ) (e : FormError) (es : List RowError)
    (info : ItemInfo) (skipped rest : List FormError × List ItemInfo)
    → (es ≡ [] → P info)
    → (rest.0 ≡ [] → All P rest.1)
    → (if b then add_error e skipped else add_row (map (row_error n) es) info rest).0 ≡ []
    → All P (if b then add_error e skipped else add_row (map (row_error n) es) info rest).1
row_read P true n e es info (errors, infos) (errors', infos') f g h = cc
row_read P false n e es info (errors, infos) (errors', infos') f g h =
    let (own, left) = append_nil (map (row_error n) es) errors' h in (f (map_nil n es own), g left)

-- What the tests on a row establish, holds of all rows that pass.
pub read_rows-All :
    (P : ItemInfo → Type 0) (errors_of : RowForm → ℕ → List RowError)
    → ((r : RowForm) (id : ℕ) → errors_of r id ≡ [] → P (item_info r id))
    → (seen : List ℕ) (rs : List (RowForm × ℕ)) → (read_rows errors_of seen rs).0 ≡ []
    → All P (read_rows errors_of seen rs).1
unfolding read_rows
read_rows-All P errors_of f seen [] h = tt
read_rows-All P errors_of f seen ((r, id) ∷ rs) h =
    row_read P (any (λ j. j == id) seen) r.item_num (row_error r.item_num duplicate_item)
      (errors_of r id) (item_info r id) (read_rows errors_of seen rs)
      (read_rows errors_of (id ∷ seen) rs) (f r id) (read_rows-All P errors_of f (id ∷ seen) rs) h

some_same : {A : Type 0} (a b : A) → some a ≡ some b → a ≡ b
some_same a b h = cc

module _ (user : String) (now : ℕ) (upper : Text → Text) (donation : ℕ) where
  -- the row shows what the form says of its item
  abbrev pub Shows : ItemInfo → DonationItem → Type 0
  Shows i r =
      (r.donation_type ≡ i.donation_type)
      × (r.item_qty ≡ enforced_qty i)
      × (r.item_cost ≡ i.item_cost)
      × (r.uom_code ≡ i.uom_code)
      × (r.currency_code ≡ i.currency_code)
      × (r.status_code ≡ b'V')

  upserted-Shows :
      (i : ItemInfo) (o : Option DonationItem)
      → Shows i (
          upserted
            (update_item_row user now upper donation i)
            (new_item_row user now upper donation i)
            o)
  unfolding update_item_row new_item_row
  upserted-Shows i none = (refl, refl, refl, refl, refl, refl)
  upserted-Shows i (some r) = (refl, refl, refl, refl, refl, refl)

  -- An item of the donation is one of the form's, or was there and is none of them.
  write_items_found :
      (infos : List ItemInfo) (rs : List DonationItem) (id : ℕ) (r : DonationItem)
      → first (is_donation_item donation id) (write_items user now upper donation infos rs) ≡ some r
      → ((i : ItemInfo) × In i infos × Shows i r)
        ⊎ ((first (is_donation_item donation id) rs ≡ some r)
            × (any (λ i. i.item_id == id) infos ≡ false))
  unfolding write_items update_item_row new_item_row
  write_items_found [] rs id r h = inr (h, refl)
  write_items_found (i ∷ is) rs id r h = elim (write_items_found is _ id r h) [
    | inl (j, m, shows) ↦ inl (j, inr m, shows)
    | inr (found, none_left) ↦ elim (Bool-cases (i.item_id == id)) [
      | inl t ↦
          let own : i.item_id ≡ id = ground arith in
          let p = is_donation_item donation i.item_id in
          let f = update_item_row user now upper donation i in
          let y = new_item_row user now upper donation i in
          let here =
            subst (λ j. first (is_donation_item donation j) (upsert p f y rs) ≡ some r) (sym own)
              found in
          let self = first-upsert_self p f y rs (λ r k. k) (ground arith) in
          let same = some_same r (upserted f y (first p rs)) (sym here ∙ self) in
          inl (i, inl refl, subst (Shows i) (sym same) (upserted-Shows i (first p rs)))
      | inr t ↦
          let other =
            first-upsert_other (is_donation_item donation i.item_id) (is_donation_item donation id)
              (update_item_row user now upper donation i) (new_item_row user now upper donation i)
              rs (λ r k. ground arith) (ground arith) in
          inr (sym other ∙ found, ground arith)
    ]
  ]

  -- What is on file of the donation after the writes is what the form says.
  written-Shows :
      (infos : List ItemInfo) (rs : List DonationItem) (id : ℕ) (r : DonationItem)
      → first (is_donation_item donation id) (
          write_items user now upper donation infos
            (filter (λ r. not (is_dropped user now upper donation infos r)) rs))
        ≡ some r
      → (i : ItemInfo) × In i infos × Shows i r
  written-Shows infos rs id r h = elim (write_items_found infos _ id r h) [
    | inl shown ↦ shown
    | inr (found, none_left) ↦
        let kept =
          first-All _ (is_donation_item donation id)
            (filter (λ r. not (is_dropped user now upper donation infos r)) rs) r
            (All-filter_own (λ r. not (is_dropped user now upper donation infos r)) rs) found in
        let own =
          first_holds (is_donation_item donation id)
            (filter (λ r. not (is_dropped user now upper donation infos r)) rs) r found in
        let same : r.item_id ≡ id = ground arith in
        let gone = subst (λ j. any (λ i. i.item_id == j) infos ≡ false) (sym same) none_left in
        absurd (ground arith)
  ]

  IsVerified-Shows :
      (infos : List ItemInfo) (r : DonationItem)
      → All InfoFits infos
      → (i : ItemInfo) × In i infos × Shows i r
      → Fits r.donation_type r.item_qty r.item_cost r.uom_code r.currency_code
  IsVerified-Shows infos r fits (i, m, shows) =
      let own : InfoFits i = All-In InfoFits infos i fits m in
      rw (shows.0, shows.1, shows.2, shows.3, shows.4) own

  -- How a call ended: it changed nothing, or what it wrote satisfies `P`.
  abbrev Ended : Depot → (Depot → Type 0) → Result VerifyFailure ⊤ × Depot → Type 0
  Ended s P (ok a, t) = P t
  Ended s P (err e, t) = t ≡ s

  -- every item on file of the donation fits its type
  abbrev AllFit : Depot → Type 0
  AllFit t =
      (id : ℕ) (r : DonationItem)
      → first (is_donation_item donation id) t.donation_items ≡ some r
      → Fits r.donation_type r.item_qty r.item_cost r.uom_code r.currency_code
        × (r.status_code ≡ b'V')

  write_verified-AllFit :
      (f : HeaderForm) (infos : List ItemInfo) (s : Depot)
      → All InfoFits infos
      → AllFit (write_verified user now upper donation f infos s)
  unfolding write_verified
  write_verified-AllFit f infos s fits id r h =
      let shown = written-Shows infos s.donation_items id r h in
      (IsVerified-Shows infos r fits shown, shown.2.5)

  module _ (today : ℕ) (accepts : Depot → Option String) (documents : Option String) where
    finish_Ended :
        (s t : Depot) (docs answer : Option String)
        → AllFit t
        → Ended s AllFit
            (finish_verified user now upper donation today accepts documents s t docs answer)
    finish_Ended s t (some e) answer h = refl
    finish_Ended s t none (some e) h = refl
    finish_Ended s t none none h = h

    verify_checked-Ended :
        (f : HeaderForm) (errors : List FormError) (infos : List ItemInfo) (s : Depot)
        → (errors ≡ [] → All InfoFits infos)
        → Ended s AllFit
            (verify_checked user now upper donation today accepts documents f errors infos s)
    verify_checked-Ended f [] infos s h =
        let t = write_verified user now upper donation f infos s in
        finish_Ended s t documents (accepts t) (write_verified-AllFit f infos s (h refl))
    verify_checked-Ended f (e ∷ es) infos s h = refl

    verify_form-Ended :
        (f : HeaderForm) (rows : List RowForm) (s : Depot)
        → Ended s AllFit (verify_form user now upper donation today accepts documents f rows s)
    unfolding form_errors
    verify_form-Ended f rows s =
        let read = read_rows (row_errors s.items) [] (item_rows rows) in
        verify_checked-Ended f (form_errors today f read) read.1 s (λ h.
          read_rows-All InfoFits (row_errors s.items) (item_info-InfoFits s.items) []
            (item_rows rows) (append_nil read.0 _ (append_nil (header_errors today f) _ h).1).0)

    dated-Ended :
        (d : DateField) (f : HeaderForm) (rows : List RowForm) (s : Depot)
        → Ended s AllFit (dated user now upper donation today accepts documents d f rows s)
    dated-Ended malformed f rows s = refl
    dated-Ended blank f rows s = verify_form-Ended f rows s
    dated-Ended (date d) f rows s = verify_form-Ended f rows s

    Ended-imp :
        (s : Depot) (P Q : Depot → Type 0) (r : Result VerifyFailure ⊤ × Depot)
        → ((t : Depot) → P t → Q t)
        → Ended s P r
        → Ended s Q r
    Ended-imp s P Q (ok a, t) f h = f t h
    Ended-imp s P Q (err e, t) f h = h

    -- The donation was on file as entered, of the version `v`.
    abbrev pub WasEntered : Option ℕ → Depot → Type 0
    WasEntered v s =
        (d : Donation) × (first (λ d. d.donation_id == donation) s.donations ≡ some d)
        × (d.status_code ≡ b'E')
        × (v ≡ some d.version_nbr)

    donation_found-Ended :
        (o : Option Donation) (v : Option ℕ) (f : HeaderForm) (rows : List RowForm) (s : Depot)
        → first (λ d. d.donation_id == donation) s.donations ≡ o
        → Ended s
            (λ t. WasEntered v s × AllFit t)
            (donation_found user now upper donation today accepts documents o v f rows s)
    donation_found-Ended none v f rows s e = refl
    donation_found-Ended (some d) none f rows s e = elim (Bool-cases (d.status_code == b'E')) [
      | inl t ↦ rw t refl
      | inr t ↦ rw t refl
    ]
    donation_found-Ended (some d) (some v) f rows s e = elim (Bool-cases (d.status_code == b'E')) [
      | inr t ↦ rw t refl
      | inl t ↦ rw t (elim (Bool-cases (d.version_nbr == v)) [
        | inr u ↦ rw u refl
        | inl u ↦
            let current : v ≡ d.version_nbr = ground arith in
            rw u (
              Ended-imp s AllFit (λ t. WasEntered (some v) s × AllFit t) _
                (λ w h. ((d, e, ground arith, ap (λ n. some n) current), h))
                (dated-Ended f.received_date f rows s))
      ])
    ]

    verify_donation_detail-Ended :
        (v : Option ℕ) (f : HeaderForm) (rows : List RowForm) (s : Depot)
        → Ended s
            (λ t. WasEntered v s × AllFit t)
            (verify_donation_detail user now upper donation today accepts documents v f rows s)
    unfolding verify_donation_detail
    verify_donation_detail-Ended v f rows s =
        donation_found-Ended (first (λ d. d.donation_id == donation) s.donations) v f rows s refl

    -- A verification that succeeds was of a donation on file as entered, of the version that the form was
    -- made for. Each item of the donation is then verified and fits its type: goods have a unit and no
    -- currency; funds have the quantity 1.00, a positive cost and a currency, and no unit.
    pub verify_donation_detail-Fits :
        (v : Option ℕ) (f : HeaderForm) (rows : List RowForm) (s t : Depot) (id : ℕ)
        (r : DonationItem)
        → verify_donation_detail user now upper donation today accepts documents v f rows s
          ≡ (ok tt, t)
        → first (is_donation_item donation id) t.donation_items ≡ some r
        → WasEntered v s
          × Fits r.donation_type r.item_qty r.item_cost r.uom_code r.currency_code
          × (r.status_code ≡ b'V')
    verify_donation_detail-Fits v f rows s t id r h found =
        let (entered, fits) =
          subst (Ended s (λ t. WasEntered v s × AllFit t)) h
            (verify_donation_detail-Ended v f rows s) in
        let (own, status) = fits id r found in (entered, own, status)
