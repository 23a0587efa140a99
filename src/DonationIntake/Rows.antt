-- ===== src/DonationIntake/Rows.antt =====
-- The rows of app/db/models.py that donations and their intake read and write, and form fields.
-- Quantities and values are counted in ten-thousandths; a product of the two is kept exact.
use dmis_feature_branch.Base.{ℕ, ◌+◌, String, Bool, ◌==◌, ◌&&◌, Option, List}
use dmis_feature_branch.Base.Text.{text_beq}
use dmis_feature_branch.Store.{Text, Db, ItemBatch}

pub record Item : Type 0 where
  pub item_id : ℕ
  pub item_code : Text
  pub category_type : Text
  pub is_batched_flag : Bool
  pub can_expire_flag : Bool

pub record Warehouse : Type 0 where
  pub warehouse_id : ℕ
  pub allow_donation_intake : Bool

pub record Donation : Type 0 where
  pub donation_id : ℕ
  pub donor_id : ℕ
  pub event_id : ℕ
  pub custodian_id : ℕ
  pub donation_desc : Text
  pub received_date : ℕ
  pub origin_country_id : ℕ
  pub origin_address1_text : Option Text
  pub origin_address2_text : Option Text
  pub tot_item_cost : ℕ
  pub storage_cost : ℕ
  pub haulage_cost : ℕ
  pub other_cost : ℕ
  pub other_cost_desc : Option Text
  pub status_code : ℕ
  pub comments_text : Option Text
  pub update_by_id : String
  pub update_dtime : ℕ
  pub verify_by_id : Option String
  pub verify_dtime : Option ℕ
  pub version_nbr : ℕ

-- the donation types: 'GOODS', 'FUNDS', and any other text that a form may hold
pub data DonationType : Type 0 where
  goods : DonationType
  funds : DonationType
  unknown : DonationType

pub record DonationItem : Type 0 where
  pub donation_id : ℕ
  pub item_id : ℕ
  pub donation_type : DonationType
  pub item_qty : ℕ
  pub item_cost : ℕ
  pub uom_code : Option ℕ
  pub currency_code : Option ℕ
  pub location_name : Text
  pub status_code : ℕ
  pub comments_text : Option Text
  pub update_by_id : String
  pub update_dtime : ℕ
  pub verify_by_id : Option String
  pub verify_dtime : Option ℕ
  pub version_nbr : ℕ

pub record DonationIntake : Type 0 where
  pub donation_id : ℕ
  pub inventory_id : ℕ
  pub intake_date : ℕ
  pub comments_text : Option Text
  pub status_code : ℕ
  pub create_by_id : String
  pub create_dtime : ℕ
  pub update_by_id : String
  pub update_dtime : ℕ
  pub verify_by_id : String
  pub verify_dtime : Option ℕ

pub record DonationIntakeItem : Type 0 where
  pub donation_id : ℕ
  pub inventory_id : ℕ
  pub item_id : ℕ
  pub batch_no : Text
  pub batch_date : ℕ
  pub expiry_date : Option ℕ
  pub uom_code : ℕ
  pub avg_unit_value : ℕ
  pub ext_item_cost : ℕ
  pub usable_qty : ℕ
  pub defective_qty : ℕ
  pub expired_qty : ℕ
  pub status_code : ℕ
  pub comments_text : Option Text
  pub update_by_id : String
  pub update_dtime : ℕ

-- The session's view of the tables. `next_batch_id` is the sequence of itembatch.batch_id.
pub record Depot : Type 0 where
  pub stock : Db
  pub next_batch_id : ℕ
  pub items : List Item
  pub warehouses : List Warehouse
  pub donations : List Donation
  pub donation_items : List DonationItem
  pub intakes : List DonationIntake
  pub intake_items : List DonationIntakeItem

-- `Decimal(text)` of a field of the form: no number, a negative one, or a quantity. A blank field is
-- the quantity 0.
pub data Amount : Type 0 where
  invalid : Amount
  negative : Amount
  amount : ℕ → Amount

-- `strptime(text, '%Y-%m-%d')` of a field of the form
pub data DateField : Type 0 where
  blank : DateField
  malformed : DateField
  date : ℕ → DateField

-- the key (donation_id, inventory_id) of an intake
abbrev pub is_intake : ℕ → ℕ → DonationIntake → Bool
is_intake donation warehouse i = i.donation_id == donation && i.inventory_id == warehouse

-- `DonationIntakeItem.query.filter_by(donation_id=…, inventory_id=…)`
abbrev pub of_intake : ℕ → ℕ → DonationIntakeItem → Bool
of_intake donation warehouse r = r.donation_id == donation && r.inventory_id == warehouse

-- the same with `item_id=…, batch_no=…`
abbrev pub is_line : DonationIntakeItem → DonationIntakeItem → Bool
is_line k r =
    of_intake k.donation_id k.inventory_id r
    && r.item_id == k.item_id
    && text_beq r.batch_no k.batch_no

-- `ItemBatch.query.filter_by(inventory_id=…, item_id=…, batch_no=…)`
abbrev pub is_lot : ℕ → ℕ → Text → ItemBatch → Bool
is_lot warehouse item number b =
    b.inventory_id == warehouse && b.item_id == item && text_beq b.batch_no number

-- `usable_qty + defective_qty + expired_qty`
abbrev pub intake_total : DonationIntakeItem → ℕ
intake_total r = r.usable_qty + r.defective_qty + r.expired_qty
