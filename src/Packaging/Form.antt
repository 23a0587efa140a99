-- ===== src/Packaging/Form.antt =====
-- The form of one request item, and the tests that `_process_allocations` makes on it. The form's
-- values stand parsed: an invalid batch id is 0, an empty status or a blank reason is none.
use dmis_feature_branch.Base.{
  ℕ, ◌+◌, ◌-◌, String, Bool, false, Option, none, some, List, [], ◌∷◌, ltb, leb, ◌==◌, ◌&&◌, ◌||◌,
  not, if◌then◌else◌, total, min,
}
use dmis_feature_branch.Base.Dict.{Dict, get_or_zero}
use dmis_feature_branch.Base.Table.{first}
use dmis_feature_branch.Base.Action.{Result, ok, err}
use dmis_feature_branch.Store.{ItemBatch, ReliefRqstItem, BatchKey, key_eq}
use dmis_feature_branch.Allocation.Validate.{Invalid, validate_batch_allocation}
use dmis_feature_branch.ItemStatus.{
  ItemStatusRow, Refusal, validate_quantity_limit, validate_status_transition,
}
use dmis_feature_branch.Reservation.Maps.{Failure}

pub record ItemForm : Type 0 where
  pub entries : List (ℕ × ℕ)
  pub status : Option ℕ
  pub reason : Option String

pub data PackFailure : Type 0 where
  version_required : PackFailure
  version_conflict : PackFailure
  batch_missing : ℕ → PackFailure
  invalid_allocation : Invalid → PackFailure
  over_request : ℕ → PackFailure
  not_fully_allocated : ℕ → PackFailure
  status_refused : Refusal → PackFailure
  reservation_failed : Failure → PackFailure
  access_denied : PackFailure
  invalid_action : PackFailure
  not_open : PackFailure
  no_pending_package : PackFailure
  already_dispatched : PackFailure
  submitted_by_another : PackFailure
  package_missing : PackFailure
  nothing_allocated : PackFailure
  issue_mismatch : ℕ → PackFailure
  commit_failed : Failure → PackFailure
  request_missing : PackFailure

-- an element of `batch_allocations`
pub record Taken : Type 0 where
  pub batch_id : ℕ
  pub inventory_id : ℕ
  pub qty : ℕ
  pub uom_code : ℕ

abbrev pub key_of_taken : ℕ → Taken → BatchKey
key_of_taken item t = record {
  item_id = item;
  inventory_id = t.inventory_id;
  batch_id = t.batch_id;
}

abbrev pub take : ItemBatch → ℕ → Taken
take b q = record {
  batch_id = b.batch_id;
  inventory_id = b.inventory_id;
  qty = q;
  uom_code = b.uom_code;
}

abbrev pub add_taken : Taken → Result PackFailure (List Taken) → Result PackFailure (List Taken)
add_taken t (ok ts) = ok (t ∷ ts)
add_taken t (err e) = err e

-- the code that is calculated when the form names none
abbrev pub calculated_status : ℕ → ℕ → ℕ
calculated_status allocated requested =
    if allocated == 0 then b'R' else if leb requested allocated then b'F' else b'P'

abbrev pub or_calculated : Option ℕ → ℕ → ℕ
or_calculated none s = s
or_calculated (some t) s = t

-- `form_status in {'U', 'D', 'W', 'L', 'P'}`
abbrev pub allows_partial : Option ℕ → Bool
allows_partial none = false
allows_partial (some s) = s == b'U' || s == b'D' || s == b'W' || s == b'L' || s == b'P'

-- one hundredth, the 0.01 of the source
abbrev pub cent : ℕ
cent = 100

abbrev pub issue_qty_for : ℕ → ℕ → ℕ → ℕ
issue_qty_for status allocated requested =
    if status == b'R' || status == b'U' || status == b'W' || status == b'D'
    then 0
    else if status == b'P' || status == b'L'
    then min allocated (requested - cent)
    else if status == b'F'
    then requested
    else allocated

-- `wording` gives the default text for a limited item, `denied` that for a denied one.
module _ (wording : ℕ → ℕ → String) (denied : String) where
  abbrev pub status_reason_for : ℕ → Option String → ℕ → ℕ → Option String
  status_reason_for status reason allocated requested =
      if status == b'D' || status == b'L'
      then elim reason [
        | some t ↦ some t
        | none ↦ if status == b'L' then some (wording allocated requested) else some denied
      ]
      else none

  -- the fields that are written on the request item
  unfoldable pub settle_item : String → ℕ → ℕ → Option String → ℕ → ReliefRqstItem → ReliefRqstItem
  settle_item user now status reason allocated i = record i {
    status_code = status;
    issue_qty = issue_qty_for status allocated i.request_qty;
    status_reason_desc = status_reason_for status reason allocated i.request_qty;
    action_by_id = if status == b'R' then none else some user;
    action_dtime = if status == b'R' then none else some now;
    version_nbr = i.version_nbr + 1;
  }

-- the entry that names the batch `b`
unfoldable pub read_found :
    ℕ
    → List ItemBatch
    → Dict BatchKey ℕ
    → ℕ
    → ℕ
    → ItemBatch
    → Result PackFailure (List Taken)
    → Result PackFailure (List Taken)
read_found today batches existing item q b rest =
    if ltb 0 q
    then elim (validate_batch_allocation today batches b.batch_id item q
        (get_or_zero (key_of_taken item (take b q)) existing)) [
          | some e ↦ err (invalid_allocation e)
          | none ↦ add_taken (take b q) rest
        ]
    else add_taken (take b q) rest

unfoldable pub read_entries :
    ℕ → List ItemBatch → Dict BatchKey ℕ → ℕ → List (ℕ × ℕ) → Result PackFailure (List Taken)
unfolding read_found
read_entries today batches existing item [] = ok []
read_entries today batches existing item ((id, q) ∷ es) =
    let rest = read_entries today batches existing item es in
    if id == 0 then rest else elim (first (λ b. b.batch_id == id) batches) [
      | none ↦ err (batch_missing id)
      | some b ↦ read_found today batches existing item q b rest
    ]

abbrev pub total_taken : List Taken → ℕ
total_taken = total (λ t. t.qty)

-- The tests on the totals and on the status; the answer is the status. `complete` is
-- `validate_complete`, `activity` says that the item has records or form keys.
unfoldable pub check_taken :
    List ItemStatusRow → Bool → Bool → ItemForm → ReliefRqstItem → ℕ → Result PackFailure ℕ
check_taken rows complete activity form i allocated =
    let status = or_calculated form.status (calculated_status allocated i.request_qty) in
    if not (validate_quantity_limit allocated i.request_qty)
    then err (over_request i.item_id)
    else if complete && ltb allocated i.request_qty && not (allows_partial form.status)
    then err (not_fully_allocated i.item_id)
    else elim (validate_status_transition rows i.status_code status allocated i.request_qty
        activity) [ some r ↦ err (status_refused r) | none ↦ ok status ]
