-- ===== src/Donations/Form.antt =====
-- The tests of `verify_donation_detail` on its form.
use dmis_feature_branch.Base.{
  ℕ, Bool, true, false, ◌&&◌, not, Option, none, some, List, [], ◌∷◌, ◌++◌, map, ltb, leb, ◌==◌,
  any, if◌then◌else◌,
}
use dmis_feature_branch.Base.Text.{codes, is_empty, text_beq}
use dmis_feature_branch.Base.Table.{first}
use dmis_feature_branch.Store.{Text}
use dmis_feature_branch.DonationIntake.Rows.{
  Item, DonationType, goods, funds, unknown, Amount, invalid, negative, amount, DateField, blank,
  malformed, date,
}

-- a field that is blank is none
pub record HeaderForm : Type 0 where
  pub donor_id : Option ℕ
  pub event_id : Option ℕ
  pub custodian_id : Option ℕ
  pub donation_desc : Text
  pub received_date : DateField
  pub origin_country_id : Option ℕ
  pub origin_address1 : Text
  pub origin_address2 : Text
  pub comments_text : Text
  pub tot_item_cost : Amount
  pub storage_cost : Amount
  pub haulage_cost : Amount
  pub other_cost : Amount
  pub other_cost_desc : Text

-- the fields of a row of the form; a row without an item is passed over
pub record RowForm : Type 0 where
  pub item_num : ℕ
  pub item_id : Option ℕ
  pub donation_type : DonationType
  pub quantity : Option Amount
  pub item_cost : Amount
  pub uom_code : Option ℕ
  pub currency_code : Option ℕ
  pub location_name : Text
  pub item_comments : Text

pub data RowError : Type 0 where
  duplicate_item : RowError
  type_invalid : RowError
  quantity_required : RowError
  quantity_negative : RowError
  quantity_not_one : RowError
  quantity_invalid : RowError
  cost_negative : RowError
  cost_not_positive : RowError
  cost_invalid : RowError
  uom_required : RowError
  currency_required : RowError
  type_mismatch : RowError

pub data FormError : Type 0 where
  donor_required : FormError
  event_required : FormError
  custodian_required : FormError
  description_required : FormError
  received_date_required : FormError
  country_required : FormError
  received_date_future : FormError
  total_not_positive : FormError
  total_invalid : FormError
  storage_negative : FormError
  storage_invalid : FormError
  haulage_negative : FormError
  haulage_invalid : FormError
  other_negative : FormError
  other_invalid : FormError
  other_description_required : FormError
  row_error : ℕ → RowError → FormError
  no_items : FormError
  funds_without_cost : ℕ → FormError

-- an element of `item_data`
pub record ItemInfo : Type 0 where
  pub item_id : ℕ
  pub donation_type : DonationType
  pub quantity : ℕ
  pub item_cost : ℕ
  pub uom_code : Option ℕ
  pub currency_code : Option ℕ
  pub location_name : Text
  pub item_comments : Text

-- `Decimal('1.00')`
abbrev pub one_unit : ℕ
one_unit = 10000

abbrev pub when : {A : Type 0} → Bool → A → List A
when b e = if b then e ∷ [] else []

abbrev pub is_missing : {A : Type 0} → Option A → Bool
is_missing none = true
is_missing (some a) = false

abbrev pub is_funds : DonationType → Bool
is_funds funds = true
is_funds goods = false
is_funds unknown = false

abbrev pub is_goods_type : DonationType → Bool
is_goods_type goods = true
is_goods_type funds = false
is_goods_type unknown = false

abbrev pub value : Amount → ℕ
value invalid = 0
value negative = 0
value (amount v) = v

abbrev pub quantity_value : Option Amount → ℕ
quantity_value none = 0
quantity_value (some a) = value a

abbrev pub date_errors : ℕ → DateField → List FormError
date_errors today blank = []
date_errors today malformed = []
date_errors today (date d) = when (ltb today d) received_date_future

abbrev pub is_blank_date : DateField → Bool
is_blank_date blank = true
is_blank_date malformed = false
is_blank_date (date d) = false

abbrev pub total_errors : Amount → List FormError
total_errors invalid = total_invalid ∷ []
total_errors negative = total_not_positive ∷ []
total_errors (amount v) = when (leb v 0) total_not_positive

abbrev pub cost_errors : FormError → FormError → Amount → List FormError
cost_errors below bad invalid = bad ∷ []
cost_errors below bad negative = below ∷ []
cost_errors below bad (amount v) = []

-- the errors of the header, in the order of the tests
unfoldable pub header_errors : ℕ → HeaderForm → List FormError
header_errors today f =
    when (is_missing f.donor_id) donor_required
    ++ (when (is_missing f.event_id) event_required
        ++ (when (is_missing f.custodian_id) custodian_required
            ++ (when (is_empty f.donation_desc) description_required
                ++ (when (is_blank_date f.received_date) received_date_required
                    ++ (when (is_missing f.origin_country_id) country_required
                        ++ (date_errors today f.received_date
                            ++ (total_errors f.tot_item_cost
                                ++ (cost_errors storage_negative storage_invalid f.storage_cost
                                    ++ (cost_errors haulage_negative haulage_invalid f.haulage_cost
                                        ++ (cost_errors other_negative other_invalid f.other_cost
                                            ++ when
                                                (ltb 0 (value f.other_cost)
                                                  && is_empty f.other_cost_desc)
                                                other_description_required))))))))))

unfoldable pub quantity_errors : DonationType → Option Amount → List RowError
quantity_errors t none = quantity_required ∷ []
quantity_errors t (some invalid) = quantity_invalid ∷ []
quantity_errors t (some negative) = quantity_negative ∷ when (is_funds t) quantity_not_one
quantity_errors t (some (amount q)) = when (is_funds t && not (q == one_unit)) quantity_not_one

unfoldable pub item_cost_errors : DonationType → Amount → List RowError
item_cost_errors t invalid = cost_invalid ∷ []
item_cost_errors t negative = cost_negative ∷ when (is_funds t) cost_not_positive
item_cost_errors t (amount v) = when (is_funds t && leb v 0) cost_not_positive

unfoldable pub type_errors : DonationType → Option ℕ → Option ℕ → List RowError
type_errors goods uom currency = when (is_missing uom) uom_required
type_errors funds uom currency = when (is_missing currency) currency_required
type_errors unknown uom currency = []

abbrev pub is_unknown : DonationType → Bool
is_unknown unknown = true
is_unknown goods = false
is_unknown funds = false

-- `category.category_type != donation_type`
abbrev pub differs : DonationType → Text → Bool
differs goods t = not (text_beq t (codes "GOODS"))
differs funds t = not (text_beq t (codes "FUNDS"))
differs unknown t = true

abbrev pub mismatch : DonationType → Option Item → List RowError
mismatch t none = []
mismatch t (some i) = when (differs t i.category_type) type_mismatch

unfoldable pub row_errors : List Item → RowForm → ℕ → List RowError
unfolding quantity_errors item_cost_errors type_errors
row_errors items r id =
    when (is_unknown r.donation_type) type_invalid
    ++ (quantity_errors r.donation_type r.quantity
        ++ (item_cost_errors r.donation_type r.item_cost
            ++ (type_errors r.donation_type r.uom_code r.currency_code
                ++ mismatch r.donation_type (first (λ i. i.item_id == id) items))))

unfoldable pub item_info : RowForm → ℕ → ItemInfo
item_info r id = record {
  item_id = id;
  donation_type = r.donation_type;
  quantity = quantity_value r.quantity;
  item_cost = value r.item_cost;
  uom_code = if is_goods_type r.donation_type then r.uom_code else none;
  currency_code = if is_funds r.donation_type then r.currency_code else none;
  location_name = r.location_name;
  item_comments = r.item_comments;
}

-- the rows with an item
abbrev pub with_item : RowForm → Option ℕ → List (RowForm × ℕ) → List (RowForm × ℕ)
with_item r none rest = rest
with_item r (some id) rest = (r, id) ∷ rest

unfoldable pub item_rows : List RowForm → List (RowForm × ℕ)
item_rows [] = []
item_rows (r ∷ rs) = with_item r r.item_id (item_rows rs)

abbrev pub add_row :
    List FormError → ItemInfo → List FormError × List ItemInfo → List FormError × List ItemInfo
add_row errors info (es, infos) = (errors ++ es, info ∷ infos)

abbrev pub add_error : FormError → List FormError × List ItemInfo → List FormError × List ItemInfo
add_error e (es, infos) = (e ∷ es, infos)

-- the loop over the rows, with the tests `errors_of` on a row and the ids that were seen before it
unfoldable pub read_rows :
    (RowForm → ℕ → List RowError) → List ℕ → List (RowForm × ℕ) → List FormError × List ItemInfo
unfolding item_info
read_rows errors_of seen [] = ([], [])
read_rows errors_of seen ((r, id) ∷ rs) =
    let skipped = read_rows errors_of seen rs in
    let rest = read_rows errors_of (id ∷ seen) rs in
    if any (λ j. j == id) seen
    then add_error (row_error r.item_num duplicate_item) skipped
    else add_row (map (row_error r.item_num) (errors_of r id)) (item_info r id) rest

abbrev pub no_item_errors : List ItemInfo → List FormError
no_item_errors [] = no_items ∷ []
no_item_errors (i ∷ is) = []

-- all the errors of a form, in the order of the tests
unfoldable pub form_errors : ℕ → HeaderForm → List FormError × List ItemInfo → List FormError
unfolding header_errors
form_errors today f (errors, infos) = header_errors today f ++ (errors ++ no_item_errors infos)
