-- ===== src/Request/Draft.antt =====
-- `create_draft_request`, `add_or_update_request_item`, `delete_request_item` and `submit_request`.
use dmis_feature_branch.Base.{
  ℕ, ◌+◌, String, Bool, true, false, Option, none, some, List, [], ◌∷◌, ◌++◌, ⊤, ltb, leb, ◌==◌,
  not, if◌then◌else◌, any,
}
use dmis_feature_branch.Base.Table.{first, modify, remove}
use dmis_feature_branch.Base.Action.{pure, raise}
use dmis_feature_branch.Store.{ReliefRqst, ReliefRqstItem}
use dmis_feature_branch.Request.Desk.{
  Desk, Requests, invalid_urgency, agency_not_found, event_not_found, user_not_found,
  quantity_not_positive, item_modified, request_not_found, not_a_draft, no_items,
  no_items_with_quantity, request_modified, item_not_found, status_draft, status_awaiting_approval,
  is_request, is_item_of, items_of_request, is_urgency, find_user,
}

-- the row as `create_draft_request` fills it; `id` is the key that the database assigns
unfoldable pub new_draft : ℕ → ℕ → ℕ → Option ℕ → Option String → ℕ → ℕ → String → ReliefRqst
new_draft id agency urgency event notes today now user_name = record {
  reliefrqst_id = id;
  agency_id = agency;
  request_date = today;
  urgency_ind = urgency;
  eligible_event_id = event;
  rqst_notes_text = notes;
  status_code = status_draft;
  status_reason_desc = none;
  create_by_id = user_name;
  create_dtime = now;
  review_by_id = none;
  review_dtime = none;
  action_by_id = none;
  action_dtime = none;
  version_nbr = 1;
}

-- `if eligible_event_id is not None: …`
abbrev pub event_missing : Option ℕ → Desk → Bool
event_missing none s = false
event_missing (some e) s = not (any (λ x. x == e) s.events)

-- Nothing is written before the user is looked up, so the rollback there leaves the state as it is.
unfoldable pub create_draft_request :
    ℕ → ℕ → ℕ → ℕ → Option ℕ → Option String → ℕ → String → Requests ReliefRqst
unfolding new_draft
create_draft_request id today agency urgency event notes now email s =
    if not (is_urgency urgency)
    then raise invalid_urgency s
    else if not (any (λ a. a == agency) s.agencies)
    then raise (agency_not_found agency) s
    else if event_missing event s
    then raise event_not_found s
    else elim (find_user email s) [
      | none ↦ raise (user_not_found email) s
      | some u ↦
          let r = new_draft id agency urgency event notes today now u.user_name in
          pure r
            (record s { tables = record s.tables { requests = s.tables.requests ++ (r ∷ []) } })
    ]

-- the five fields that an update writes
unfoldable pub update_item : ℕ → ℕ → Option String → Option ℕ → ReliefRqstItem → ReliefRqstItem
update_item qty urgency reason by i = record i {
  request_qty = qty;
  urgency_ind = urgency;
  rqst_reason_desc = reason;
  required_by_date = by;
  version_nbr = i.version_nbr + 1;
}

-- The columns that the function leaves to the database's defaults are arguments.
unfoldable pub new_item : String → ℕ → ℕ → ℕ → ℕ → ℕ → Option String → Option ℕ → ReliefRqstItem
new_item user now rqst item qty urgency reason by = record {
  reliefrqst_id = rqst;
  item_id = item;
  request_qty = qty;
  issue_qty = 0;
  urgency_ind = urgency;
  rqst_reason_desc = reason;
  required_by_date = by;
  status_code = b'R';
  status_reason_desc = none;
  action_by_id = none;
  action_dtime = none;
  update_by_id = user;
  update_dtime = now;
  version_nbr = 1;
}

-- `current_version is not None and existing_item.version_nbr != current_version`
abbrev pub is_stale : Option ℕ → ReliefRqstItem → Bool
is_stale none i = false
is_stale (some v) i = not (i.version_nbr == v)

abbrev pub with_items : List ReliefRqstItem → Desk → Desk
with_items is s = record s { tables = record s.tables { rqst_items = is } }

unfoldable pub add_or_update_request_item :
    String → ℕ → ℕ → ℕ → ℕ → ℕ → Option String → Option ℕ → Option ℕ → Requests ⊤
unfolding update_item new_item
add_or_update_request_item user now rqst item qty urgency reason by version s =
    if leb qty 0
    then raise quantity_not_positive s
    else if not (is_urgency urgency)
    then raise invalid_urgency s
    else elim (first (is_item_of rqst item) s.tables.rqst_items) [
      | none ↦ pure tt (
          with_items
            (s.tables.rqst_items ++ (new_item user now rqst item qty urgency reason by ∷ [])) s)
      | some i ↦
          if is_stale version i
          then raise (item_modified item) s
          else pure tt (
              with_items
                (modify (is_item_of rqst item) (update_item qty urgency reason by)
                  s.tables.rqst_items)
                s)
    ]

unfoldable pub delete_request_item : ℕ → ℕ → Requests ⊤
delete_request_item rqst item s = elim (first (is_request rqst) s.tables.requests) [
  | none ↦ raise request_not_found s
  | some r ↦
      if not (r.status_code == status_draft)
      then raise (not_a_draft r.status_code) s
      else elim (first (is_item_of rqst item) s.tables.rqst_items) [
        | none ↦ raise item_not_found s
        | some i ↦ pure tt (with_items (remove (is_item_of rqst item) s.tables.rqst_items) s)
      ]
]

unfoldable pub mark_awaiting : ReliefRqst → ReliefRqst
mark_awaiting r = record r {
  status_code = status_awaiting_approval;
  version_nbr = r.version_nbr + 1;
}

-- the change of the request `rqst`
abbrev pub change_request : ℕ → (ReliefRqst → ReliefRqst) → Desk → Desk
change_request rqst f s = record s {
  tables = record s.tables { requests = modify (is_request rqst) f s.tables.requests };
}

-- the tests and the write, on the request that was found
unfoldable pub submit_found : ℕ → ℕ → ReliefRqst → Requests ⊤
unfolding mark_awaiting
submit_found rqst version r s =
    if not (r.status_code == status_draft)
    then raise (not_a_draft r.status_code) s
    else if not (any (λ i. true) (items_of_request rqst s))
    then raise no_items s
    else if not (any (λ i. ltb 0 i.request_qty) (items_of_request rqst s))
    then raise no_items_with_quantity s
    else if not (r.version_nbr == version)
    then raise request_modified s
    else pure tt (change_request rqst mark_awaiting s)

unfoldable pub submit_request : ℕ → ℕ → Requests ⊤
unfolding submit_found
submit_request rqst version s = elim (first (is_request rqst) s.tables.requests) [
  | none ↦ raise request_not_found s
  | some r ↦ submit_found rqst version r s
]
