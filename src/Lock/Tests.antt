-- ===== src/Lock/Tests.antt =====
-- The theorems on locks at concrete inputs.
use dmis_feature_branch.Base.{◌≡◌, ◌≢◌, refl, true, false, some, List, [], ◌∷◌}
use dmis_feature_branch.Base.Table.{first}
use dmis_feature_branch.Store.Samples.{stocked}
use dmis_feature_branch.Lock.{
  Lock, Locked, Others, acquired, being_prepared_by, being_prepared_by_another, is_lock, is_expired,
  acquire_lock,
}
use dmis_feature_branch.Lock.Exclusion.{
  Promise, IsExclusive, KeepsOut, acquire_lock-Promise, acquire_lock-IsExclusive,
}

-- user 1 has request 9 until the time 50
abbrev first_lock : Lock
first_lock = record {
  reliefrqst_id = 9;
  fulfiller_user_id = 1;
  fulfiller_email = "one";
  acquired_at = 20;
  expires_at = some 50;
}

abbrev locks : List Lock
locks = first_lock ∷ []

abbrev state : Locked
state = record { locks = locks; stock = stocked }

-- No other session is at work.
abbrev alone : Others
alone = record { before_insert = λ ks. ks; after_refusal = λ ks. ks; keys_hold = true }

-- Another session takes the lock before the insertion, and is gone by the query.
abbrev in_between : Others
in_between = record {
  before_insert = λ ks. first_lock ∷ ks;
  after_refusal = λ ks. [];
  keys_hold = true;
}

acquire_lock-Promise_example :
    Promise 9 2 (acquire_lock alone 9 2 "two" 24 40 locks)
    × ((l : Lock)
        → first (is_lock 9) locks ≡ some l
        → l.fulfiller_user_id ≢ 2
        → is_expired 40 l ≡ false
        → acquire_lock alone 9 2 "two" 24 40 locks ≡ (being_prepared_by l.fulfiller_user_id, locks))
acquire_lock-Promise_example = acquire_lock-Promise alone 9 2 "two" 24 40 locks

-- At the time 60 the lock of user 1 has expired.
acquire_lock-IsExclusive_example :
    IsExclusive (acquire_lock alone 9 2 "two" 24 60 locks).1
    × ((acquire_lock alone 9 2 "two" 24 60 locks).0 ≡ acquired
        → KeepsOut 9 2 24 60 (acquire_lock alone 9 2 "two" 24 60 locks).1)
unfolding first
acquire_lock-IsExclusive_example =
    acquire_lock-IsExclusive alone 9 2 "two" 24 60 locks (λ ks h. h) (λ ks h. h) (refl, tt)

acquires : (acquire_lock alone 9 2 "two" 24 60 locks).0 ≡ acquired
unfolding acquire_lock first
acquires = refl

names_nobody : acquire_lock in_between 9 2 "two" 24 60 [] ≡ (being_prepared_by_another, [])
unfolding acquire_lock first
names_nobody = refl
