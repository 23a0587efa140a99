-- ===== src/Packaging/Reviewed.antt =====
-- The review page keeps the stock's invariants, and guards what it does.
use dmis_feature_branch.Base.{
  ℕ, ◌≡◌, refl, inl, inr, String, true, Option, none, some, Bool-cases, Option-cases,
}
use dmis_feature_branch.Base.Table.{first}
use dmis_feature_branch.Base.Action.{Keeps, >>=-Keeps}
use dmis_feature_branch.Store.{Db, ReliefPkg, ReliefRqst}
use dmis_feature_branch.Dispatch.Submit.{is_request}
use dmis_feature_branch.Packaging.Submit.{mark_request_sent}
use dmis_feature_branch.Packaging.Routes.{Roles, is_pending_of, is_some}
use dmis_feature_branch.Packaging.Review.{
  ReviewAction, check_issued, mark_reviewed, review_steps, mark_rejected, reject_steps,
  review_action, review_found, review_approval,
}
use dmis_feature_branch.Packaging.Kept.{
  IsSound, rolled_back-IsSound, commit-Keeps, require-Keeps, validate_version_nbr-Keeps,
}
use dmis_feature_branch.Packaging.Sound.{check_package-Keeps}
use dmis_feature_branch.Packaging.Guarded.{
  IsGuarded, IsGuarded-imp, refused, rolled_back-IsGuarded, validated_both, is_some-none,
}

check_issued-Keeps : (rqst : ℕ) → Keeps IsSound (check_issued rqst)
unfolding check_issued
check_issued-Keeps rqst s = require-Keeps IsSound _ _ s

module _ (user : String) (now : ℕ) (v w : Option ℕ) (r : ReliefRqst) (p : ReliefPkg) where
  review_steps-Keeps : Keeps IsSound (review_steps user now v w r p)
  unfolding review_steps mark_reviewed mark_request_sent
  review_steps-Keeps = >>=-Keeps _ _ _ (validate_version_nbr-Keeps IsSound v r.version_nbr) (λ _.
      >>=-Keeps _ _ _ (validate_version_nbr-Keeps IsSound w p.version_nbr) (λ _.
        >>=-Keeps _ _ _ (check_package-Keeps p.reliefpkg_id r.reliefrqst_id) (λ _.
          >>=-Keeps _ _ _ (check_issued-Keeps r.reliefrqst_id) (λ _ s h.
            >>=-Keeps IsSound _ _ (commit-Keeps r.reliefrqst_id) (λ _ t k. k)
              (mark_reviewed user now p.reliefpkg_id s) h))))

  reject_steps-Keeps : Keeps IsSound (reject_steps user now v w r p)
  unfolding reject_steps mark_rejected
  reject_steps-Keeps =
      >>=-Keeps _ _ _ (validate_version_nbr-Keeps IsSound v r.version_nbr)
        (λ _. >>=-Keeps _ _ _ (validate_version_nbr-Keeps IsSound w p.version_nbr) (λ _ s h. h))

  review_action-IsSound :
      (a : ReviewAction) (s : Db) → IsSound s → IsSound (review_action user now a v w r p s).1
  unfolding review_action
  review_action-IsSound ReviewAction.approve s h =
      rolled_back-IsSound s _ h (review_steps-Keeps s h)
  review_action-IsSound ReviewAction.reject s h = rolled_back-IsSound s _ h (reject_steps-Keeps s h)
  review_action-IsSound ReviewAction.other s h = h

  review_action-IsGuarded :
      (a : ReviewAction) (s : Db)
      → IsGuarded
          ((v ≡ some r.version_nbr) × (w ≡ some p.version_nbr))
          s
          (review_action user now a v w r p s)
  unfolding review_action review_steps reject_steps
  review_action-IsGuarded ReviewAction.approve s =
      rolled_back-IsGuarded s _ (validated_both v w r.version_nbr p.version_nbr _ s)
  review_action-IsGuarded ReviewAction.reject s =
      rolled_back-IsGuarded s _ (validated_both v w r.version_nbr p.version_nbr _ s)
  review_action-IsGuarded ReviewAction.other s = refused _ s

-- what success on the review page needs
abbrev pub MayReview : Roles → ℕ → Option ℕ → Option ℕ → Db → Type 0
MayReview roles rqst v w s =
    (r : ReliefRqst) × (p : ReliefPkg) × (roles.manager ≡ true)
    × (first (is_request rqst) s.requests ≡ some r)
    × (first (is_pending_of rqst) s.packages ≡ some p)
    × (p.dispatch_dtime ≡ none)
    × (v ≡ some r.version_nbr)
    × (w ≡ some p.version_nbr)

module _ (user : String) (now : ℕ) (roles : Roles) (a : ReviewAction) (rqst : ℕ) (v w : Option ℕ)
    (s : Db) (h : IsSound s) where
  review_found_lem :
      (r : ReliefRqst) (found : Option ReliefPkg)
      → IsSound (review_found user now a v w r found s).1
        × IsGuarded
            ((p : ReliefPkg) × (found ≡ some p)
              × (p.dispatch_dtime ≡ none)
              × (v ≡ some r.version_nbr)
              × (w ≡ some p.version_nbr))
            s
            (review_found user now a v w r found s)
  unfolding review_found
  review_found_lem r none = (h, refused _ s)
  review_found_lem r (some p) = elim (Bool-cases (is_some p.dispatch_dtime)) [
    | inl t ↦ rw t (h, refused _ s)
    | inr t ↦ rw t (
      review_action-IsSound user now v w r p a s h,
      IsGuarded-imp s _ (λ g. (p, refl, is_some-none p.dispatch_dtime t, g.0, g.1))
          (review_action-IsGuarded user now v w r p a s),
    )
  ]

  -- A call from the review page keeps both invariants of the stock. If it fails, it changes nothing; it
  -- succeeds only for a manager, on a request that exists and has a pending package that was not
  -- dispatched, both still of the versions that the form was made for.
  pub review_approval-IsReviewed :
      IsSound (review_approval user now roles a rqst v w s).1
      × IsGuarded (MayReview roles rqst v w s) s (review_approval user now roles a rqst v w s)
  unfolding review_approval
  review_approval-IsReviewed = elim (Bool-cases roles.manager) [
    | inr t ↦ rw t (h, refused _ s)
    | inl t ↦ rw t (elim (Option-cases (first (is_request rqst) s.requests)) [
      | inl e ↦ rw (e, review_approval) (h, refused _ s)
      | inr (r, e) ↦
          let (sound, guarded) = review_found_lem r (first (is_pending_of rqst) s.packages) in
          rw (e, review_approval)
            (sound, IsGuarded-imp s _ (λ g. (r, g.0, refl, refl, g.1, g.2, g.3, g.4)) guarded)
    ])
  ]
