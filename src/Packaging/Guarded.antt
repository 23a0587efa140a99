-- ===== src/Packaging/Guarded.antt =====
-- Who may change a package, on what condition, and that a failure changes nothing.
use dmis_feature_branch.Base.{
  ℕ, ◌≡◌, refl, inl, inr, String, Bool, true, false, Option, none, some, List, ⊤, ◌||◌, Bool-cases,
  Option-cases, subst, ==_iff, arith,
}
use dmis_feature_branch.Base.Table.{first}
use dmis_feature_branch.Base.Action.{Result, ok, err, Action, next, ◌>>◌}
use dmis_feature_branch.Store.{Db, ReliefPkg, ReliefRqst}
use dmis_feature_branch.ItemStatus.{ItemStatusRow}
use dmis_feature_branch.Dispatch.Submit.{is_request}
use dmis_feature_branch.Packaging.Form.{ItemForm, PackFailure}
use dmis_feature_branch.Packaging.Draft.{
  validate_version_nbr, rolled_back_to, draft_steps, save_draft,
}
use dmis_feature_branch.Packaging.Submit.{
  submit_steps, submit_for_approval, send_steps, send_for_dispatch,
}
use dmis_feature_branch.Packaging.Approve.{
  draft_approval_steps, save_draft_approval, approve_steps, approve_and_dispatch,
}
use dmis_feature_branch.Packaging.Routes.{
  PrepareAction, ApproveAction, Roles, is_open, is_pending_of, is_some, prepare_action,
  prepare_found, prepare_package, approve_action, approve_found, approve_package,
}

-- A call that began in `s` and ended as `r`: a failure has changed nothing, and success needs `G`.
abbrev pub IsGuarded {ℓ} : Type ℓ → Db → Result PackFailure ⊤ × Db → Type ℓ
IsGuarded G s r = ((e : PackFailure) → r.0 ≡ err e → r.1 ≡ s) × (r.0 ≡ ok tt → G)

pub refused : {G : Type 0} (e : PackFailure) (s : Db) → IsGuarded G s (err e, s)
refused e s = (λ _ _. refl, λ h. cc)

pub IsGuarded-imp :
    {G H : Type 0} (s : Db) (r : Result PackFailure ⊤ × Db)
    → (G → H)
    → IsGuarded G s r
    → IsGuarded H s r
IsGuarded-imp s r f g = (g.0, λ h. f (g.1 h))

validated :
    (v : Option ℕ) (n : ℕ) (f : Action Db PackFailure ⊤) (s : Db)
    → ((validate_version_nbr v n >> f) s).0 ≡ ok tt
    → v ≡ some n
unfolding validate_version_nbr
validated none n f s h = cc
validated (some v) n f s h = ground (arith, ==_iff v n)

pub rolled_back-IsGuarded :
    {G : Type 0} (s : Db) (r : Result PackFailure ⊤ × Db)
    → (r.0 ≡ ok tt → G)
    → IsGuarded G s (rolled_back_to s r)
rolled_back-IsGuarded s (ok a, t) h = (λ e x. cc, λ _. h refl)
rolled_back-IsGuarded s (err e, t) h = (λ _ _. refl, λ x. cc)

passes : (v : Option ℕ) (n : ℕ) (s : Db) → v ≡ some n → validate_version_nbr v n s ≡ (ok tt, s)
unfolding validate_version_nbr
passes none n s h = cc
passes (some v) n s h = ground (arith, ==_iff v n)

pub validated_both :
    (v w : Option ℕ) (n m : ℕ) (f : Action Db PackFailure ⊤) (s : Db)
    → ((validate_version_nbr v n >> (validate_version_nbr w m >> f)) s).0 ≡ ok tt
    → (v ≡ some n) × (w ≡ some m)
validated_both v w n m f s h =
    let e = validated v n (validate_version_nbr w m >> f) s h in
    (
      e,
      validated w m f s
          (subst (λ r. (next (λ _. validate_version_nbr w m >> f) r).0 ≡ ok tt) (passes v n s e) h),
    )

pub is_some-none : (d : Option ℕ) → is_some d ≡ false → d ≡ none
is_some-none none h = refl
is_some-none (some n) h = cc

-- the role that a button of the preparation page needs
abbrev pub permits : PrepareAction → Roles → Bool
permits PrepareAction.save roles = roles.officer || roles.manager
permits PrepareAction.submit roles = roles.officer
permits PrepareAction.send roles = roles.manager
permits PrepareAction.other roles = false

module _ (wording : ℕ → ℕ → String) (denied : String) (rows : List ItemStatusRow) (user : String)
    (now today : ℕ) (form : ℕ → ItemForm) (roles : Roles) where
  prepare_action-IsGuarded :
      (a : PrepareAction) (id : ℕ) (v w : Option ℕ) (r : ReliefRqst) (s : Db)
      → roles.officer || roles.manager ≡ true
      → IsGuarded
          ((v ≡ some r.version_nbr) × (permits a roles ≡ true))
          s
          (prepare_action wording denied rows user now today form roles a id v w r s)
  unfolding prepare_action save_draft submit_for_approval send_for_dispatch draft_steps submit_steps
      send_steps
  prepare_action-IsGuarded PrepareAction.save id v w r s h =
      rolled_back-IsGuarded s _ (λ k. (validated v r.version_nbr _ s k, h))
  prepare_action-IsGuarded PrepareAction.submit id v w r s h = elim (Bool-cases roles.officer) [
    | inl t ↦ rw t (rolled_back-IsGuarded s _ (λ k. (validated v r.version_nbr _ s k, refl)))
    | inr t ↦ rw t (refused _ s)
  ]
  prepare_action-IsGuarded PrepareAction.send id v w r s h = elim (Bool-cases roles.manager) [
    | inl t ↦ rw t (rolled_back-IsGuarded s _ (λ k. (validated v r.version_nbr _ s k, refl)))
    | inr t ↦ rw t (refused _ s)
  ]
  prepare_action-IsGuarded PrepareAction.other id v w r s h = refused _ s

  -- A call from the preparation page that fails changes nothing. It succeeds only for a user with the
  -- role that the button needs, on a request that exists, is submitted or part filled, and still has
  -- the version that the form was filled in for.
  pub prepare_package-IsGuarded :
      (a : PrepareAction) (rqst id : ℕ) (v w : Option ℕ) (s : Db)
      → IsGuarded
          ((r : ReliefRqst) × (first (is_request rqst) s.requests ≡ some r)
            × (is_open r ≡ true)
            × (v ≡ some r.version_nbr)
            × (permits a roles ≡ true))
          s
          (prepare_package wording denied rows user now today form roles a rqst id v w s)
  unfolding prepare_package prepare_found
  prepare_package-IsGuarded a rqst id v w s = elim (Bool-cases (roles.officer || roles.manager)) [
    | inr t ↦ rw t (refused _ s)
    | inl t ↦ rw t (elim (Option-cases (first (is_request rqst) s.requests)) [
      | inl e ↦ rw (e, prepare_package) (refused _ s)
      | inr (r, e) ↦
          rw (e, prepare_package)
            (elim (Bool-cases (is_open r)) [
              | inr u ↦ rw (u, prepare_found) (refused _ s)
              | inl u ↦
                  rw (u, prepare_found)
                    (IsGuarded-imp s _ (λ g. (r, refl, u, g.0, g.1))
                      (prepare_action-IsGuarded a id v w r s t))
            ])
    ])
  ]

  approve_action-IsGuarded :
      (a : ApproveAction) (id : ℕ) (v w : Option ℕ) (r : ReliefRqst) (p : ReliefPkg) (s : Db)
      → IsGuarded
          ((v ≡ some r.version_nbr) × (w ≡ some p.version_nbr))
          s
          (approve_action wording denied rows user now today form roles a id v w r p s)
  unfolding approve_action save_draft_approval approve_and_dispatch draft_approval_steps
      approve_steps
  approve_action-IsGuarded ApproveAction.save id v w r p s =
      rolled_back-IsGuarded s _ (validated_both v w r.version_nbr p.version_nbr _ s)
  approve_action-IsGuarded ApproveAction.approve id v w r p s =
      rolled_back-IsGuarded s _ (validated_both v w r.version_nbr p.version_nbr _ s)
  approve_action-IsGuarded ApproveAction.other id v w r p s = refused _ s

  approve_found-IsGuarded :
      (a : ApproveAction) (id : ℕ) (v w : Option ℕ) (r : ReliefRqst) (found : Option ReliefPkg)
      (s : Db)
      → IsGuarded
          ((p : ReliefPkg) × (found ≡ some p)
            × (p.dispatch_dtime ≡ none)
            × (v ≡ some r.version_nbr)
            × (w ≡ some p.version_nbr))
          s
          (approve_found wording denied rows user now today form roles a id v w r found s)
  unfolding approve_found
  approve_found-IsGuarded a id v w r none s = refused _ s
  approve_found-IsGuarded a id v w r (some p) s = elim (Bool-cases (is_some p.dispatch_dtime)) [
    | inl t ↦ rw t (refused _ s)
    | inr t ↦ rw t (
        IsGuarded-imp s _ (λ g. (p, refl, is_some-none p.dispatch_dtime t, g.0, g.1))
          (approve_action-IsGuarded a id v w r p s))
  ]

  -- A call from the approval page that fails changes nothing. It succeeds only for a manager, on a
  -- request that exists and has a pending package that was not dispatched, both still of the versions
  -- that the form was filled in for.
  pub approve_package-IsGuarded :
      (a : ApproveAction) (rqst id : ℕ) (v w : Option ℕ) (s : Db)
      → IsGuarded
          ((r : ReliefRqst) × (p : ReliefPkg) × (roles.manager ≡ true)
            × (first (is_request rqst) s.requests ≡ some r)
            × (first (is_pending_of rqst) s.packages ≡ some p)
            × (p.dispatch_dtime ≡ none)
            × (v ≡ some r.version_nbr)
            × (w ≡ some p.version_nbr))
          s
          (approve_package wording denied rows user now today form roles a rqst id v w s)
  unfolding approve_package
  approve_package-IsGuarded a rqst id v w s = elim (Bool-cases roles.manager) [
    | inr t ↦ rw t (refused _ s)
    | inl t ↦ rw t (elim (Option-cases (first (is_request rqst) s.requests)) [
      | inl e ↦ rw (e, approve_package) (refused _ s)
      | inr (r, e) ↦
          rw (e, approve_package)
            (IsGuarded-imp s _ (λ g. (r, g.0, refl, refl, g.1, g.2, g.3, g.4))
              (approve_found-IsGuarded a id v w r (first (is_pending_of rqst) s.packages) s))
    ])
  ]
