-- ===== src/Request/Desk.antt =====
-- The status codes, the failures, and the tables that the service reads beside those of Store.
-- Notifications, which the service writes and never reads, are left out.
use dmis_feature_branch.Base.{ℕ, String, Bool, true, false, Option, List, ◌==◌, ◌&&◌, ◌||◌, filter}
use dmis_feature_branch.Base.Action.{Action}
use dmis_feature_branch.Base.Table.{first}
use Prim.Native.String.{compare as text_compare}
use Prim.Native.Nat.{Ordering}
use dmis_feature_branch.Store.{Db, ReliefRqst, ReliefRqstItem}

-- STATUS_DRAFT and the others
abbrev pub status_draft : ℕ
status_draft = 0

abbrev pub status_awaiting_approval : ℕ
status_awaiting_approval = 1

abbrev pub status_cancelled : ℕ
status_cancelled = 2

abbrev pub status_submitted : ℕ
status_submitted = 3

abbrev pub status_denied : ℕ
status_denied = 4

abbrev pub status_part_filled : ℕ
status_part_filled = 5

abbrev pub status_closed : ℕ
status_closed = 6

abbrev pub status_filled : ℕ
status_filled = 7

abbrev pub status_ineligible : ℕ
status_ineligible = 8

pub record User : Type 0 where
  pub email : String
  pub user_name : String

-- a row of dbintake_item
pub record IntakeItem : Type 0 where
  pub reliefpkg_id : ℕ
  pub inventory_id : ℕ
  pub item_id : ℕ
  pub usable_qty : ℕ

-- The tables, where of agencies and events only the keys matter.
pub record Desk : Type 0 where
  pub agencies : List ℕ
  pub events : List ℕ
  pub users : List User
  pub intake : List IntakeItem
  pub tables : Db

pub data RequestFailure : Type 0 where
  invalid_urgency : RequestFailure
  agency_not_found : ℕ → RequestFailure
  event_not_found : RequestFailure
  user_not_found : String → RequestFailure
  quantity_not_positive : RequestFailure
  item_modified : ℕ → RequestFailure
  request_not_found : RequestFailure
  not_a_draft : ℕ → RequestFailure
  no_items : RequestFailure
  no_items_with_quantity : RequestFailure
  request_modified : RequestFailure
  already_closed : RequestFailure
  packages_pending : ℕ → RequestFailure
  not_fully_received : RequestFailure
  item_not_found : RequestFailure
  cannot_review : ℕ → RequestFailure
  already_decided : RequestFailure
  invalid_decision : RequestFailure
  reason_required : RequestFailure
  marked_ineligible : RequestFailure
  cannot_process : ℕ → RequestFailure

abbrev pub Requests : Type 0 → Type 0
Requests A = Action Desk RequestFailure A

abbrev pub is_request : ℕ → ReliefRqst → Bool
is_request rqst r = r.reliefrqst_id == rqst

-- `relief_request.items`
abbrev pub items_of_request : ℕ → Desk → List ReliefRqstItem
items_of_request rqst s = filter (λ i. i.reliefrqst_id == rqst) s.tables.rqst_items

abbrev pub is_item_of : ℕ → ℕ → ReliefRqstItem → Bool
is_item_of rqst item i = i.reliefrqst_id == rqst && i.item_id == item

-- `urgency_ind in [URGENCY_HIGH, URGENCY_MEDIUM, URGENCY_LOW, URGENCY_CRITICAL]`
abbrev pub is_urgency : ℕ → Bool
is_urgency u = u == b'H' || u == b'M' || u == b'L' || u == b'C'

-- `==` on strings
abbrev pub same_text : String → String → Bool
same_text a b = elim (text_compare a b) [ Ordering.eq ↦ true | _ ↦ false ]

-- `User.query.filter_by(email=…).first()`
abbrev pub find_user : String → Desk → Option User
find_user email s = first (λ u. same_text u.email email) s.users
