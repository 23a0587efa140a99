-- ===== src/Lock/Expiry.antt =====
-- Locks that expire: the check before an edit, and the clean-up.
use dmis_feature_branch.Base.{
  ℕ, ◌≡◌, subst, ==_iff, inl, inr, ◌⊎◌, true, none, some, List, [], ◌∷◌, arith, ◌==◌, not,
  if◌then◌else◌, filter, Bool-cases, Option-cases,
}
use dmis_feature_branch.Base.Table.{first}
use dmis_feature_branch.Store.{Db}
use dmis_feature_branch.Store.Invariant.{AllCovered}
use dmis_feature_branch.Reservation.Coverage.{release_all_reservations-AllCovered}
use dmis_feature_branch.Lock.{
  Lock, Locked, is_lock, is_expired, check_lock, release_each, cleanup_expired_locks,
}
use dmis_feature_branch.Lock.Exclusion.{Holds, IsExclusive, first-filter-none, first-delete_lock}

-- A user who may edit is not kept out by anyone's lock: none is left, or the user's own.
pub check_lock_free :
    (rqst user now : ℕ) (s : Locked)
    → (check_lock rqst user now s).0 ≡ true
    → (first (is_lock rqst) (check_lock rqst user now s).2.locks ≡ none)
      ⊎ Holds rqst user (check_lock rqst user now s).2.locks
unfolding check_lock
check_lock_free rqst user now s ok = elim (Option-cases (first (is_lock rqst) s.locks)) [
  | inl e ↦ rw (e, check_lock) (inl e)
  | inr (l, e) ↦
      rw (e, check_lock)
        (elim (Bool-cases (is_expired now l)) [
          | inl t ↦ rw t (inl (first-delete_lock rqst s.locks))
          | inr t ↦ rw t (elim (Bool-cases (l.fulfiller_user_id == user)) [
            | inl u ↦ rw u (inr (l, e, ground arith))
            | inr u ↦ ground arith
          ])
        ])
]

release_each-AllCovered : (ls : List Lock) (s : Db) → AllCovered s → AllCovered (release_each ls s)
unfolding release_each
release_each-AllCovered [] s h = h
release_each-AllCovered (l ∷ ls) s h =
    release_each-AllCovered ls _ (release_all_reservations-AllCovered l.reliefrqst_id s h)

-- The clean-up removes the locks that have expired and no other: of a request with one lock, the lock
-- is found afterwards exactly if it has not expired; and the stock stays covered.
pub cleanup_expired_locks_lem :
    (now rqst : ℕ) (s : Locked) (l : Lock)
    → IsExclusive s.locks
    → AllCovered s.stock
    → first (is_lock rqst) s.locks ≡ some l
    → (first (is_lock rqst) (cleanup_expired_locks now s).1.locks
        ≡ (if is_expired now l then none else some l))
      × AllCovered (cleanup_expired_locks now s).1.stock
unfolding cleanup_expired_locks first
cleanup_expired_locks_lem now rqst s l x h e =
    (kept s.locks x e, release_each-AllCovered (filter (is_expired now) s.locks) s.stock h)
  where
    kept :
        (ls : List Lock)
        → IsExclusive ls
        → first (is_lock rqst) ls ≡ some l
        → first (is_lock rqst) (filter (λ k. not (is_expired now k)) ls)
          ≡ (if is_expired now l then none else some l)
    kept [] x e = cc
    kept (k ∷ ks) x e = elim (Bool-cases (is_lock rqst k)) [
      | inl t ↦
          let none_left : first (is_lock rqst) ks ≡ none =
            subst (λ i. first (is_lock i) ks ≡ none) ((==_iff k.reliefrqst_id rqst).0 t) x.0 in
          ground (arith, first-filter-none rqst (λ j. not (is_expired now j)) ks none_left)
      | inr t ↦ ground (arith, kept ks x.1)
    ]
