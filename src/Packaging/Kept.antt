-- ===== src/Packaging/Kept.antt =====
-- What the steps of a package's life do to the stock, on the way to the handlers' theorems.
use dmis_feature_branch.Base.{
  ℕ, inl, inr, String, Bool, true, false, Option, none, some, List, ⊤, ◌==◌, Bool-cases,
  Option-cases,
}
use dmis_feature_branch.Base.Dict.{Dict}
use dmis_feature_branch.Base.Action.{Result, ok, err, Ends, Ends-all, Keeps}
use dmis_feature_branch.Store.{Db, ReliefPkg, BatchKey}
use dmis_feature_branch.Store.Invariant.{AllCovered, IsConsistent}
use dmis_feature_branch.ItemStatus.{ItemStatusRow}
use dmis_feature_branch.Reservation.Maps.{Allocation, Failure, package_of}
use dmis_feature_branch.Reservation.Reserve.{reserve_inventory}
use dmis_feature_branch.Reservation.Commit.{commit_inventory}
use dmis_feature_branch.Reservation.Coverage.{
  reserve_inventory-AllCovered, commit_inventory-AllCovered,
}
use dmis_feature_branch.Reservation.Agreement.{reserve_inventory-IsConsistent}
use dmis_feature_branch.Reservation.Reconcile.{commit_inventory-IsConsistent}
use dmis_feature_branch.Packaging.Form.{ItemForm, PackFailure}
use dmis_feature_branch.Packaging.Process.{Work, get_or_create, finish, process_allocations}
use dmis_feature_branch.Packaging.Draft.{
  validate_version_nbr, validate_package, as_pack, rolled_back_to,
}
use dmis_feature_branch.Packaging.Submit.{
  require, as_commit, found_package, refuse_other, refuse_modified,
}

-- the two invariants of the stock
abbrev pub IsSound : Db → Type 0
IsSound s = AllCovered s × IsConsistent s

pub rolled_back-IsSound :
    (s : Db) (r : Result PackFailure ⊤ × Db)
    → IsSound s
    → Ends IsSound r
    → IsSound (rolled_back_to s r).1
rolled_back-IsSound s (ok a, t) h e = e
rolled_back-IsSound s (err e, t) h x = h

pub reserve-Keeps :
    (rqst : ℕ) (news : List Allocation) (olds : Dict BatchKey ℕ)
    → Keeps IsSound (λ s. as_pack (reserve_inventory rqst news (some olds) s))
reserve-Keeps rqst news olds s h =
    both (reserve_inventory rqst news (some olds) s)
      (reserve_inventory-AllCovered rqst news (some olds) s h.0)
      (reserve_inventory-IsConsistent rqst news (some olds) s h.1)
  where
    both :
        (r : Result Failure ⊤ × Db)
        → AllCovered r.1
        → Ends IsConsistent r
        → Ends IsSound (as_pack r)
    both (ok a, s) x y = (x, y)
    both (err e, s) x y = tt

pub commit-Keeps : (rqst : ℕ) → Keeps IsSound (λ s. as_commit (commit_inventory rqst s))
commit-Keeps rqst s h =
    both (commit_inventory rqst s) (commit_inventory-AllCovered rqst s h.0)
      (commit_inventory-IsConsistent rqst s h.1)
  where
    both :
        (r : Result Failure ⊤ × Db)
        → AllCovered r.1
        → Ends IsConsistent r
        → Ends IsSound (as_commit r)
    both (ok a, s) x y = (x, y)
    both (err e, s) x y = tt

-- A test changes nothing, so it keeps whatever holds.
module _ (P : Db → Type 0) where
  pub require-Keeps : (b : Bool) (e : PackFailure) → Keeps P (require b e)
  require-Keeps true e s h = h
  require-Keeps false e s h = tt

  pub validate_version_nbr-Keeps : (v : Option ℕ) (n : ℕ) → Keeps P (validate_version_nbr v n)
  unfolding validate_version_nbr
  validate_version_nbr-Keeps none n s h = tt
  validate_version_nbr-Keeps (some v) n s h = elim (Bool-cases (v == n)) [
    | inl t ↦ rw t h
    | inr t ↦ rw t tt
  ]

  pub validate_package-Keeps :
      (v : Option ℕ) (p : Option ReliefPkg) → Keeps P (validate_package v p)
  unfolding validate_package
  validate_package-Keeps none p s h = h
  validate_package-Keeps (some v) none s h = h
  validate_package-Keeps (some v) (some p) s h =
      validate_version_nbr-Keeps (some v) p.version_nbr s h

  pub found_package-Keeps : (p : Option ReliefPkg) → Keeps P (found_package p)
  found_package-Keeps none s h = tt
  found_package-Keeps (some p) s h = h

  pub refuse_other-Keeps : (user : String) (p : Option ReliefPkg) → Keeps P (refuse_other user p)
  unfolding refuse_other
  refuse_other-Keeps user none s h = h
  refuse_other-Keeps user (some p) s h = require-Keeps _ _ s h

  pub refuse_modified-Keeps :
      (user : String) (before : Option ReliefPkg) (p : ReliefPkg)
      → Keeps P (refuse_modified user before p)
  unfolding refuse_modified
  refuse_modified-Keeps user none p s h = h
  refuse_modified-Keeps user (some b) p s h = require-Keeps _ _ s h

module _ (wording : ℕ → ℕ → String) (denied : String) (rows : List ItemStatusRow) (user : String)
    (now today : ℕ) (complete : Bool) (form : ℕ → ItemForm) where
  get_or_create-IsSound :
      (id rqst : ℕ) (s : Db)
      → IsSound s
      → IsSound (get_or_create wording denied rows user now today complete form id rqst s).1
  unfolding get_or_create
  get_or_create-IsSound id rqst s h = elim (Option-cases (package_of rqst s)) [
    | inl e ↦ rw (e, get_or_create) h
    | inr (p, e) ↦ rw (e, get_or_create) h
  ]

  finish-IsSound :
      (s : Db) (pkg : ℕ) (existing : Dict BatchKey ℕ) (r : Result PackFailure ⊤ × Work)
      → IsSound s
      → IsSound (finish wording denied rows user now today complete form s pkg existing r).1
  finish-IsSound s pkg existing (ok a, w) h = h
  finish-IsSound s pkg existing (err e, w) h = h

  pub process_allocations-Keeps :
      (id rqst : ℕ)
      → Keeps IsSound (process_allocations wording denied rows user now today complete form id rqst)
  unfolding process_allocations
  process_allocations-Keeps id rqst s h = Ends-all IsSound _ (
      finish-IsSound (get_or_create wording denied rows user now today complete form id rqst s).1 _
        _ _ (get_or_create-IsSound id rqst s h))
