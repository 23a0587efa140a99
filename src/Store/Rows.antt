-- ===== src/Store/Rows.antt =====
-- The mapped classes of app/db/models.py.
use dmis_feature_branch.Base.{ℕ, ◌≡◌, String, List, Option, arith, ◌==◌, ◌&&◌, Bool, true, ◌↔◌}
use dmis_feature_branch.Base.Dict.{Eq}

-- a text whose characters matter, as the list of their code points
abbrev pub Text : Type 0
Text = List ℕ

pub record ItemBatch : Type 0 where
  pub batch_id : ℕ
  pub inventory_id : ℕ
  pub item_id : ℕ
  pub batch_no : Text
  pub batch_date : Option ℕ
  pub expiry_date : Option ℕ
  pub usable_qty : ℕ
  pub reserved_qty : ℕ
  pub defective_qty : ℕ
  pub expired_qty : ℕ
  pub uom_code : ℕ
  pub avg_unit_value : ℕ
  pub status_code : ℕ
  pub comments_text : Option Text
  pub update_by_id : String
  pub update_dtime : ℕ
  pub version_nbr : ℕ

-- `inventory_id` is the warehouse's id
pub record Inventory : Type 0 where
  pub inventory_id : ℕ
  pub item_id : ℕ
  pub usable_qty : ℕ
  pub reserved_qty : ℕ
  pub defective_qty : ℕ
  pub expired_qty : ℕ
  pub uom_code : ℕ
  pub status_code : ℕ
  pub update_by_id : String
  pub update_dtime : ℕ
  pub version_nbr : ℕ

pub record ReliefPkg : Type 0 where
  pub reliefpkg_id : ℕ
  pub reliefrqst_id : ℕ
  pub status_code : ℕ
  pub dispatch_dtime : Option ℕ
  pub verify_by_id : Option String
  pub verify_dtime : Option ℕ
  pub received_by_id : Option String
  pub received_dtime : Option ℕ
  pub create_by_id : String
  pub update_by_id : String
  pub update_dtime : ℕ
  pub version_nbr : ℕ

pub record ReliefPkgItem : Type 0 where
  pub reliefpkg_id : ℕ
  pub fr_inventory_id : ℕ
  pub batch_id : ℕ
  pub item_id : ℕ
  pub item_qty : ℕ
  pub uom_code : ℕ
  pub update_by_id : String
  pub update_dtime : ℕ
  pub version_nbr : ℕ

pub record ReliefRqst : Type 0 where
  pub reliefrqst_id : ℕ
  pub agency_id : ℕ
  pub request_date : ℕ
  pub urgency_ind : ℕ
  pub eligible_event_id : Option ℕ
  pub rqst_notes_text : Option String
  pub status_code : ℕ
  pub status_reason_desc : Option Text
  pub create_by_id : String
  pub create_dtime : ℕ
  pub review_by_id : Option String
  pub review_dtime : Option ℕ
  pub action_by_id : Option String
  pub action_dtime : Option ℕ
  pub version_nbr : ℕ

pub record ReliefRqstItem : Type 0 where
  pub reliefrqst_id : ℕ
  pub item_id : ℕ
  pub request_qty : ℕ
  pub issue_qty : ℕ
  pub urgency_ind : ℕ
  pub rqst_reason_desc : Option String
  pub required_by_date : Option ℕ
  pub status_code : ℕ
  pub status_reason_desc : Option String
  pub action_by_id : Option String
  pub action_dtime : Option ℕ
  pub update_by_id : String
  pub update_dtime : ℕ
  pub version_nbr : ℕ

-- The session's view of the tables.
pub record Db : Type 0 where
  pub batches : List ItemBatch
  pub inventories : List Inventory
  pub packages : List ReliefPkg
  pub pkg_items : List ReliefPkgItem
  pub requests : List ReliefRqst
  pub rqst_items : List ReliefRqstItem

-- the tuple (item_id, inventory_id, batch_id) by which allocations are keyed
pub record BatchKey : Type 0 where
  pub item_id : ℕ
  pub inventory_id : ℕ
  pub batch_id : ℕ

abbrev pub key_beq : BatchKey → BatchKey → Bool
key_beq j k = j.item_id == k.item_id && j.inventory_id == k.inventory_id && j.batch_id == k.batch_id

pub key_beq_iff : (j k : BatchKey) → (key_beq j k ≡ true) ↔ (j ≡ k)
key_beq_iff j k = ground arith

instance abbrev pub key_eq : Eq BatchKey
key_eq = record { beq = key_beq; beq_iff = key_beq_iff }

-- the tuple (item_id, inventory_id)
pub record StockKey : Type 0 where
  pub item_id : ℕ
  pub inventory_id : ℕ

abbrev pub stock_beq : StockKey → StockKey → Bool
stock_beq j k = j.item_id == k.item_id && j.inventory_id == k.inventory_id

pub stock_beq_iff : (j k : StockKey) → (stock_beq j k ≡ true) ↔ (j ≡ k)
stock_beq_iff j k = ground arith

instance abbrev pub stock_eq : Eq StockKey
stock_eq = record { beq = stock_beq; beq_iff = stock_beq_iff }

abbrev pub stock_of : BatchKey → StockKey
stock_of k = record { item_id = k.item_id; inventory_id = k.inventory_id }
