-- ===== src/Packaging/Pages.antt =====
-- What can be relied on of the preparation and the approval page, whatever button is pressed.
use dmis_feature_branch.Base.{ℕ, ◌≡◌, String, true, Option, none, some, List}
use dmis_feature_branch.Base.Table.{first}
use dmis_feature_branch.Store.{Db, ReliefPkg, ReliefRqst}
use dmis_feature_branch.ItemStatus.{ItemStatusRow}
use dmis_feature_branch.Dispatch.Submit.{is_request}
use dmis_feature_branch.Packaging.Form.{ItemForm}
use dmis_feature_branch.Packaging.Routes.{
  PrepareAction, ApproveAction, Roles, is_open, is_pending_of, prepare_package, approve_package,
}
use dmis_feature_branch.Packaging.Kept.{IsSound}
use dmis_feature_branch.Packaging.Sound.{prepare_package-IsSound, approve_package-IsSound}
use dmis_feature_branch.Packaging.Guarded.{
  IsGuarded, permits, prepare_package-IsGuarded, approve_package-IsGuarded,
}

-- The request is on file, submitted or part filled, of the version `v`, and the button is allowed.
abbrev pub MayPrepare : Roles → PrepareAction → ℕ → Option ℕ → Db → Type 0
MayPrepare roles a rqst v s =
    (r : ReliefRqst) × (first (is_request rqst) s.requests ≡ some r)
    × (is_open r ≡ true)
    × (v ≡ some r.version_nbr)
    × (permits a roles ≡ true)

-- The request is on file, of the version `v`, with a pending package of the version `w` that was not
-- dispatched, and the user is a manager.
abbrev pub MayApprove : Roles → ℕ → Option ℕ → Option ℕ → Db → Type 0
MayApprove roles rqst v w s =
    (r : ReliefRqst) × (p : ReliefPkg) × (roles.manager ≡ true)
    × (first (is_request rqst) s.requests ≡ some r)
    × (first (is_pending_of rqst) s.packages ≡ some p)
    × (p.dispatch_dtime ≡ none)
    × (v ≡ some r.version_nbr)
    × (w ≡ some p.version_nbr)

module _ (wording : ℕ → ℕ → String) (denied : String) (rows : List ItemStatusRow) (user : String)
    (now today : ℕ) (form : ℕ → ItemForm) (roles : Roles) where
  -- A call from the preparation page keeps both invariants of the stock. If it fails, it changes
  -- nothing; it succeeds only for a user with the role that the button needs, on a request that
  -- exists, is submitted or part filled, and still has the version that the form was filled in for.
  pub prepare_package-IsSafe :
      (a : PrepareAction) (rqst id : ℕ) (v w : Option ℕ) (s : Db)
      → IsSound s
      → IsSound (prepare_package wording denied rows user now today form roles a rqst id v w s).1
        × IsGuarded
            (MayPrepare roles a rqst v s)
            s
            (prepare_package wording denied rows user now today form roles a rqst id v w s)
  prepare_package-IsSafe a rqst id v w s h = (
    prepare_package-IsSound wording denied rows user now today form roles a rqst id v w s h,
    prepare_package-IsGuarded wording denied rows user now today form roles a rqst id v w s,
  )

  -- A call from the approval page keeps both invariants of the stock. If it fails, it changes nothing;
  -- it succeeds only for a manager, on a request that exists and has a pending package that was not
  -- dispatched, both still of the versions that the form was filled in for.
  pub approve_package-IsSafe :
      (a : ApproveAction) (rqst id : ℕ) (v w : Option ℕ) (s : Db)
      → IsSound s
      → IsSound (approve_package wording denied rows user now today form roles a rqst id v w s).1
        × IsGuarded
            (MayApprove roles rqst v w s)
            s
            (approve_package wording denied rows user now today form roles a rqst id v w s)
  approve_package-IsSafe a rqst id v w s h = (
    approve_package-IsSound wording denied rows user now today form roles a rqst id v w s h,
    approve_package-IsGuarded wording denied rows user now today form roles a rqst id v w s,
  )
