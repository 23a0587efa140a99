-- ===== src/Lock.antt =====
-- app/services/fulfillment_lock_service.py: one fulfiller per relief request.
pub mod Exclusion
pub mod Expiry
pub mod Tests
use dmis_feature_branch.Base.{
  ℕ, ◌+◌, ◌*◌, Bool, true, false, String, Option, none, some, List, [], ◌∷◌, ltb, ◌==◌, ◌&&◌, ◌||◌,
  not, if◌then◌else◌, filter, length, is_some,
}
use dmis_feature_branch.Base.Table.{first}
use dmis_feature_branch.Base.Action.{Result}
use dmis_feature_branch.Store.{Db}
use dmis_feature_branch.Reservation.Release.{release_all_reservations}

-- app/db/models.py, ReliefRequestFulfillmentLock; reliefrqst_id is the primary key
pub record Lock : Type 0 where
  pub reliefrqst_id : ℕ
  pub fulfiller_user_id : ℕ
  pub fulfiller_email : String
  pub acquired_at : ℕ
  pub expires_at : Option ℕ

-- The answers; the name of the user in a refusal stands as the user's id.
pub data LockAnswer : Type 0 where
  already_yours : LockAnswer
  acquired : LockAnswer
  being_prepared_by : ℕ → LockAnswer
  being_prepared_by_another : LockAnswer
  no_lock : LockAnswer
  not_your_lock : LockAnswer
  released : LockAnswer

-- The tables that the service works on.
pub record Locked : Type 0 where
  pub locks : List Lock
  pub stock : Db

abbrev pub is_lock : ℕ → Lock → Bool
is_lock rqst l = l.reliefrqst_id == rqst

-- `lock.expires_at and lock.expires_at < now()`
abbrev pub is_expired : ℕ → Lock → Bool
is_expired now l = elim l.expires_at [ none ↦ false | some t ↦ ltb t now ]

abbrev pub delete_lock : ℕ → List Lock → List Lock
delete_lock rqst = filter (λ l. not (is_lock rqst l))

-- times are seconds
abbrev pub new_lock : ℕ → ℕ → String → ℕ → ℕ → Lock
new_lock rqst user email hours now = record {
  reliefrqst_id = rqst;
  fulfiller_user_id = user;
  fulfiller_email = email;
  acquired_at = now;
  expires_at = if ltb 0 hours then some (now + hours * 3600) else none;
}

-- The part up to the insertion: an answer, or the table into which the lock is to be inserted.
unfoldable pub acquire_check : ℕ → ℕ → ℕ → List Lock → Option LockAnswer × List Lock
acquire_check rqst user now locks = elim (first (is_lock rqst) locks) [
  | none ↦ (none, locks)
  | some l ↦
      if l.fulfiller_user_id == user
      then (some already_yours, locks)
      else if is_expired now l
      then (none, delete_lock rqst locks)
      else (some (being_prepared_by l.fulfiller_user_id), locks)
]

-- the handler of IntegrityError, on the table that it finds
unfoldable pub refused_insert : ℕ → ℕ → List Lock → LockAnswer × List Lock
refused_insert rqst user locks = elim (first (is_lock rqst) locks) [
  | none ↦ (being_prepared_by_another, locks)
  | some l ↦
      if l.fulfiller_user_id == user
      then (already_yours, locks)
      else (being_prepared_by l.fulfiller_user_id, locks)
]

-- What other sessions do during a call: what they commit to the table between the check and the
-- insertion, and between a refused insertion and the query after it; and whether the request and the
-- user, which a lock refers to, are on file at the insertion.
pub record Others : Type 0 where
  pub before_insert : List Lock → List Lock
  pub after_refusal : List Lock → List Lock
  pub keys_hold : Bool

-- The insertion, which the primary key refuses if there is a lock by then, and a foreign key if what
-- it refers to is gone.
unfoldable pub acquire_insert : Others → ℕ → ℕ → String → ℕ → ℕ → List Lock → LockAnswer × List Lock
unfolding refused_insert
acquire_insert others rqst user email hours now locks =
    if is_some (first (is_lock rqst) locks) || not others.keys_hold
    then refused_insert rqst user (others.after_refusal locks)
    else (acquired, new_lock rqst user email hours now ∷ locks)

-- How a call goes on after the check.
unfoldable pub after_check :
    Others → ℕ → ℕ → String → ℕ → ℕ → Option LockAnswer × List Lock → LockAnswer × List Lock
unfolding acquire_insert
after_check others rqst user email hours now (some a, locks) = (a, locks)
after_check others rqst user email hours now (none, locks) =
    acquire_insert others rqst user email hours now (others.before_insert locks)

unfoldable pub acquire_lock : Others → ℕ → ℕ → String → ℕ → ℕ → List Lock → LockAnswer × List Lock
unfolding acquire_check after_check
acquire_lock others rqst user email hours now locks =
    after_check others rqst user email hours now (acquire_check rqst user now locks)

-- `release_all_reservations` never fails, so its result is not looked at.
abbrev pub give_back_stock : ℕ → Db → Db
give_back_stock rqst s = (release_all_reservations rqst s).1

unfoldable pub release_lock : ℕ → ℕ → Bool → Bool → Locked → LockAnswer × Locked
release_lock rqst user force reservations s = elim (first (is_lock rqst) s.locks) [
  | none ↦ (no_lock, s)
  | some l ↦ if not (l.fulfiller_user_id == user) && not force then (not_your_lock, s) else (
    released,
    record s {
      locks = delete_lock rqst s.locks;
      stock = if reservations then give_back_stock rqst s.stock else s.stock;
    },
  )
]

-- may the user edit, and if not, who holds the lock
unfoldable pub check_lock : ℕ → ℕ → ℕ → Locked → Bool × Option ℕ × Locked
check_lock rqst user now s = elim (first (is_lock rqst) s.locks) [
  | none ↦ (true, none, s)
  | some l ↦
      if is_expired now l
      then (
        true,
        none,
        record s { locks = delete_lock rqst s.locks; stock = give_back_stock rqst s.stock },
      )
      else if l.fulfiller_user_id == user
      then (true, none, s)
      else (false, some l.fulfiller_user_id, s)
]

unfoldable pub release_each : List Lock → Db → Db
release_each [] s = s
release_each (l ∷ ls) s = release_each ls (give_back_stock l.reliefrqst_id s)

unfoldable pub cleanup_expired_locks : ℕ → Locked → ℕ × Locked
unfolding release_each
cleanup_expired_locks now s =
    let expired = filter (is_expired now) s.locks in
    (
      length expired,
      record s {
        locks = filter (λ l. not (is_expired now l)) s.locks;
        stock = release_each expired s.stock;
      },
    )
