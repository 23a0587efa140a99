-- ===== src/Request/Closing.antt =====
-- When a request is closed.
use dmis_feature_branch.Base.{
  ℕ, ◌+◌, ◌≤◌, ◌≡◌, ◌≢◌, ◌↔◌, refl, sym, subst, ap, ⊤, inl, inr, true, false, some, List, [], ◌∷◌,
  ltb, ◌==◌, ◌&&◌, ◌||◌, not, all, filter, length, arith, All,
}
use dmis_feature_branch.Base.Table.{first, first_holds, first-modify_self, first-modify_other}
use dmis_feature_branch.Base.Action.{Result, ok, err}
use dmis_feature_branch.Store.{ReliefPkg, ReliefRqst, ReliefRqstItem}
use dmis_feature_branch.Request.Desk.{Desk, RequestFailure, is_request}
use dmis_feature_branch.Request.Draft.{change_request}
use dmis_feature_branch.Request.Close.{
  received_qty, pending_packages, mark_filled, all_items_satisfied, close_found,
  check_and_autoclose_request,
}
use dmis_feature_branch.Request.Outcomes.{check_and_autoclose_request_outcome}

-- The request is on file and has not been filled (status 7), none of its packages is pending or on its
-- way, and of each of its items at least what was issued has been received.
abbrev pub IsComplete : ℕ → Desk → Type 0
IsComplete rqst s =
    (r : ReliefRqst) × (first (is_request rqst) s.tables.requests ≡ some r)
    × (r.status_code ≢ 7)
    × All (λ p. p.reliefrqst_id ≡ rqst → (p.status_code ≢ b'P') × (p.status_code ≢ b'D'))
        s.tables.packages
    × All (λ i. i.reliefrqst_id ≡ rqst → i.issue_qty ≤ received_qty rqst i.item_id s)
        s.tables.rqst_items

-- From s to t the request was filled, at the next version, and nothing else was changed.
abbrev pub IsFilled : ℕ → Desk → Desk → Type 0
IsFilled rqst s t =
    ((r : ReliefRqst) × (r' : ReliefRqst) × (first (is_request rqst) s.tables.requests ≡ some r)
      × (first (is_request rqst) t.tables.requests ≡ some r')
      × (r'.status_code ≡ 7)
      × (r'.version_nbr ≡ r.version_nbr + 1))
    × ((q : ℕ)
        → q ≢ rqst
        → first (is_request q) t.tables.requests ≡ first (is_request q) s.tables.requests)
    × (t.tables.packages ≡ s.tables.packages)
    × (t.tables.rqst_items ≡ s.tables.rqst_items)
    × (t.tables.batches ≡ s.tables.batches)
    × (t.tables.inventories ≡ s.tables.inventories)
    × (t.intake ≡ s.intake)

-- what a call ended with
abbrev pub IsEnded : ℕ → Desk → Result RequestFailure ⊤ × Desk → Type 0
IsEnded rqst s (ok u, t) = IsFilled rqst s t
IsEnded rqst s (err e, t) = t ≡ s

filled :
    (rqst : ℕ) (s : Desk) (r : ReliefRqst)
    → first (is_request rqst) s.tables.requests ≡ some r
    → IsFilled rqst s (change_request rqst mark_filled s)
unfolding mark_filled
filled rqst s r found = (
  (
    r,
    mark_filled r,
    found,
    first-modify_self (is_request rqst) mark_filled s.tables.requests r found
        (ground (arith, first_holds (is_request rqst) s.tables.requests r found)),
    refl,
    refl,
  ),
  λ q other.
      first-modify_other (is_request rqst) (is_request q) mark_filled s.tables.requests
        (λ x h. (ground arith, ground arith)),
  refl,
  refl,
  refl,
  refl,
  refl,
)

ended : (rqst : ℕ) (s : Desk) → IsEnded rqst s (check_and_autoclose_request rqst s)
ended rqst s = elim (check_and_autoclose_request_outcome rqst s) [
  | inl (f, eq) ↦ subst (IsEnded rqst s) (sym eq) refl
  | inr (r, ready, eq) ↦ subst (IsEnded rqst s) (sym eq) (filled rqst s r ready.0)
]

closes_exactly :
    (rqst : ℕ) (s : Desk) → ((check_and_autoclose_request rqst s).0 ≡ ok tt) ↔ IsComplete rqst s
unfolding check_and_autoclose_request close_found
closes_exactly rqst s = (
  λ done. elim (check_and_autoclose_request_outcome rqst s) [
    | inl (f, eq) ↦ ground (arith, ap (λ p. p.0) eq)
    | inr (r, ready, eq) ↦ (
      r,
      ready.0,
      ground (arith, ready.1),
      no_pending s.tables.packages ready.2,
      received s.tables.rqst_items ready.3,
    )
  ],
  λ h.
      let (r, e, not_closed, ps, is) = h in
      let t : (r.status_code == 7) ≡ false = ground arith in
      let u : length (pending_packages rqst s) ≡ 0 = none_pending s.tables.packages ps in
      let x : all_items_satisfied rqst s ≡ true = all_received s.tables.rqst_items is in
      rw (e, check_and_autoclose_request) (rw (t, u, x) refl),
)
  where
    no_pending :
        (ps : List ReliefPkg)
        → length (
            filter
              (λ p. p.reliefrqst_id == rqst && (p.status_code == b'P' || p.status_code == b'D'))
              ps)
          ≡ 0
        → All (λ p. p.reliefrqst_id ≡ rqst → (p.status_code ≢ b'P') × (p.status_code ≢ b'D')) ps
    no_pending [] h = tt
    no_pending (p ∷ ps) h = (λ e. ground arith, no_pending ps (ground arith))

    none_pending :
        (ps : List ReliefPkg)
        → All (λ p. p.reliefrqst_id ≡ rqst → (p.status_code ≢ b'P') × (p.status_code ≢ b'D')) ps
        → length (
            filter
              (λ p. p.reliefrqst_id == rqst && (p.status_code == b'P' || p.status_code == b'D'))
              ps)
          ≡ 0
    none_pending [] h = refl
    none_pending (p ∷ ps) h = ground (arith, none_pending ps h.1, h.0)

    received :
        (is : List ReliefRqstItem)
        → all
            (λ i. not (ltb (received_qty rqst i.item_id s) i.issue_qty))
            (filter (λ i. i.reliefrqst_id == rqst) is)
          ≡ true
        → All (λ i. i.reliefrqst_id ≡ rqst → i.issue_qty ≤ received_qty rqst i.item_id s) is
    received [] h = tt
    received (i ∷ is) h = (λ e. ground arith, received is (ground arith))

    all_received :
        (is : List ReliefRqstItem)
        → All (λ i. i.reliefrqst_id ≡ rqst → i.issue_qty ≤ received_qty rqst i.item_id s) is
        → all
            (λ i. not (ltb (received_qty rqst i.item_id s) i.issue_qty))
            (filter (λ i. i.reliefrqst_id == rqst) is)
          ≡ true
    all_received [] h = refl
    all_received (i ∷ is) h = ground (arith, all_received is h.1, h.0)

-- A call closes a request exactly if it is on file and not filled yet (status 7), none of its packages
-- is pending or on its way, and of each of its items at least what was issued has been received. Then
-- the request is filled, at the next version, and no other request, package, item or batch is changed;
-- a call that fails changes nothing.
pub check_and_autoclose_request-IsClosable :
    (rqst : ℕ) (s : Desk)
    → (((check_and_autoclose_request rqst s).0 ≡ ok tt) ↔ IsComplete rqst s)
      × IsEnded rqst s (check_and_autoclose_request rqst s)
check_and_autoclose_request-IsClosable rqst s = (closes_exactly rqst s, ended rqst s)
