-- ===== src/ItemStatus.antt =====
-- app/services/item_status_service.py: which statuses a request item may take, given what has been
-- allocated to it. Status codes are characters: R requested, U unavailable, D denied, W waiting,
-- F filled, P partly filled, L limit allowed. The lookup table's active rows are an argument.
pub mod Rules
mod Tests
use dmis_feature_branch.Base.{
  ℕ, String, Bool, true, false, Option, none, some, List, [], ◌∷◌, ◌==◌, ltb, leb, if◌then◌else◌,
  any, filter, not,
}

-- a row of reliefrqstitem_status
pub record ItemStatusRow : Type 0 where
  pub status_code : ℕ
  pub status_desc : String
  pub item_qty_rule : String
  pub active_flag : Bool

-- The cache that `load_status_map` keeps, and what it returns: the active rows.
pub load_status_map :
    Bool
    → List ItemStatusRow
    → Option (List ItemStatusRow)
    → List ItemStatusRow × Option (List ItemStatusRow)
load_status_map true rows cache =
    let active = filter (λ r. r.active_flag) rows in (active, some active)
load_status_map false rows none =
    let active = filter (λ r. r.active_flag) rows in (active, some active)
load_status_map false rows (some cached) = (cached, some cached)

-- `s in status_map`
abbrev pub is_known : List ItemStatusRow → ℕ → Bool
is_known status_map s = any (λ r. r.status_code == s) status_map

-- the automatic status, and the candidates before the inactive ones are dropped
unfoldable pub candidates : ℕ → ℕ → Bool → ℕ × List ℕ
candidates allocated requested activity =
    if allocated == 0
    then if not activity
      then (b'R', b'R' ∷ b'U' ∷ b'D' ∷ b'W' ∷ [])
      else (b'U', b'U' ∷ b'D' ∷ b'W' ∷ [])
    else if allocated == requested
    then (b'F', b'F' ∷ [])
    else if ltb allocated requested
    then (b'P', b'P' ∷ b'L' ∷ [])
    else (b'F', b'F' ∷ [])

unfoldable pub compute_allowed_statuses : List ItemStatusRow → ℕ → ℕ → Bool → ℕ × List ℕ
unfolding candidates
compute_allowed_statuses status_map allocated requested activity =
    let (auto_status, allowed) = candidates allocated requested activity in
    (auto_status, filter (is_known status_map) allowed)

-- why a transition is refused
pub data Refusal : Type 0 where
  with_zero_allocation : List ℕ → Refusal
  fully_allocated : List ℕ → Refusal
  partially_allocated : List ℕ → Refusal

unfoldable pub validate_status_transition :
    List ItemStatusRow → ℕ → ℕ → ℕ → ℕ → Bool → Option Refusal
unfolding compute_allowed_statuses
validate_status_transition status_map current new allocated requested activity =
    if current == new
    then none
    else let allowed = (compute_allowed_statuses status_map allocated requested activity).1 in
      if any (λ s. s == new) allowed
      then none
      else if allocated == 0
      then some (with_zero_allocation allowed)
      else if leb requested allocated
      then some (fully_allocated allowed)
      else some (partially_allocated allowed)

-- `validate_quantity_limit`: does the allocation stay within the request?
unfoldable pub validate_quantity_limit : ℕ → ℕ → Bool
validate_quantity_limit allocated requested = leb allocated requested

unfoldable pub get_status_label : List ItemStatusRow → ℕ → Option String
get_status_label [] code = none
get_status_label (r ∷ rows) code =
    if r.status_code == code then some r.status_desc else get_status_label rows code
