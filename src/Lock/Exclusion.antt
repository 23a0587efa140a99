-- ===== src/Lock/Exclusion.antt =====
-- Mutual exclusion.
use dmis_feature_branch.Base.{
  ℕ, ◌+◌, ◌*◌, ◌≤◌, ◌≡◌, ◌≢◌, refl, ap, sym, subst, inl, inr, Bool, false, String, Option, none,
  some, is_some, ltb, List, [], ◌∷◌, arith, ◌==◌, ◌||◌, not, ◌<◌, filter, Bool-cases, Option-cases,
}
use dmis_feature_branch.Base.Table.{first}
use dmis_feature_branch.Lock.{
  Lock, LockAnswer, already_yours, acquired, being_prepared_by, no_lock, not_your_lock, released,
  being_prepared_by_another, is_lock, is_expired, delete_lock, new_lock, acquire_check,
  refused_insert, Others, acquire_insert, after_check, acquire_lock,
}

-- `user` holds the lock of `rqst`.
abbrev pub Holds : ℕ → ℕ → List Lock → Type 0
Holds rqst user locks =
    (l : Lock) × (first (is_lock rqst) locks ≡ some l) × (l.fulfiller_user_id ≡ user)

-- No request has two locks.
abbrev pub IsExclusive : List Lock → Type 0
IsExclusive [] = Unit
IsExclusive (l ∷ ls) = (first (is_lock l.reliefrqst_id) ls ≡ none) × IsExclusive ls

pub first-filter-none :
    (rqst : ℕ) (p : Lock → Bool) (ls : List Lock)
    → first (is_lock rqst) ls ≡ none
    → first (is_lock rqst) (filter p ls) ≡ none
unfolding first
first-filter-none rqst p [] h = refl
first-filter-none rqst p (l ∷ ls) h = ground (arith, first-filter-none rqst p ls)

pub first-delete_lock :
    (rqst : ℕ) (ls : List Lock) → first (is_lock rqst) (delete_lock rqst ls) ≡ none
unfolding first
first-delete_lock rqst [] = refl
first-delete_lock rqst (l ∷ ls) = ground (arith, first-delete_lock rqst ls)

IsExclusive-filter : (p : Lock → Bool) (ls : List Lock) → IsExclusive ls → IsExclusive (filter p ls)
IsExclusive-filter p [] h = tt
IsExclusive-filter p (l ∷ ls) (h, rest) = elim (Bool-cases (p l)) [
  | inl t ↦ rw t (first-filter-none l.reliefrqst_id p ls h, IsExclusive-filter p ls rest)
  | inr t ↦ rw t (IsExclusive-filter p ls rest)
]

-- What an answer of `acquire_lock` promises of the table that it leaves.
abbrev pub Promise : ℕ → ℕ → LockAnswer × List Lock → Type 0
Promise rqst user (already_yours, ls) = Holds rqst user ls
Promise rqst user (acquired, ls) = Holds rqst user ls
Promise rqst user (being_prepared_by v, ls) = (v ≢ user) × Holds rqst v ls
Promise rqst user (being_prepared_by_another, ls) = first (is_lock rqst) ls ≡ none
Promise rqst user (no_lock, ls) = ⊥
Promise rqst user (not_your_lock, ls) = ⊥
Promise rqst user (released, ls) = ⊥

refused_insert-Promise :
    (rqst user : ℕ) (ls : List Lock) → Promise rqst user (refused_insert rqst user ls)
unfolding refused_insert
refused_insert-Promise rqst user ls = elim (Option-cases (first (is_lock rqst) ls)) [
  | inl e ↦ rw (e, refused_insert) e
  | inr (l, e) ↦
      rw (e, refused_insert)
        (elim (Bool-cases (l.fulfiller_user_id == user)) [
          | inl t ↦ rw t (l, e, ground arith)
          | inr t ↦ rw t (ground arith, (l, e, refl))
        ])
]

acquire_insert-Promise :
    (others : Others) (rqst user : ℕ) (email : String) (hours now : ℕ) (ls : List Lock)
    → Promise rqst user (acquire_insert others rqst user email hours now ls)
unfolding acquire_insert first
acquire_insert-Promise others rqst user email hours now ls =
    elim (Bool-cases (is_some (first (is_lock rqst) ls) || not others.keys_hold)) [
      | inl t ↦ rw t (refused_insert-Promise rqst user (others.after_refusal ls))
      | inr t ↦ rw t (new_lock rqst user email hours now, ground arith, refl)
    ]

acquire_lock_promised :
    (others : Others) (rqst user : ℕ) (email : String) (hours now : ℕ) (ls : List Lock)
    → Promise rqst user (acquire_lock others rqst user email hours now ls)
unfolding acquire_lock acquire_check after_check
acquire_lock_promised others rqst user email hours now ls =
    let insert = acquire_insert-Promise others rqst user email hours now in
    elim (Option-cases (first (is_lock rqst) ls)) [
      | inl e ↦ rw (e, acquire_check) (insert (others.before_insert ls))
      | inr (l, e) ↦
          rw (e, acquire_check)
            (elim (Bool-cases (l.fulfiller_user_id == user)) [
              | inl t ↦ rw t (l, e, ground arith)
              | inr t ↦ rw t (elim (Bool-cases (is_expired now l)) [
                | inl u ↦ rw u (insert (others.before_insert (delete_lock rqst ls)))
                | inr u ↦ rw u (ground arith, (l, e, refl))
              ])
            ])
    ]

-- The lock l of another user stands, and keeps the user out.
acquire_lock_respects :
    (others : Others) (rqst user : ℕ) (email : String) (hours now : ℕ) (ls : List Lock) (l : Lock)
    → first (is_lock rqst) ls ≡ some l
    → l.fulfiller_user_id ≢ user
    → is_expired now l ≡ false
    → acquire_lock others rqst user email hours now ls ≡ (being_prepared_by l.fulfiller_user_id, ls)
unfolding acquire_lock acquire_check after_check
acquire_lock_respects others rqst user email hours now ls l e differ valid =
    let foreign : (l.fulfiller_user_id == user) ≡ false = ground arith in
    rw (e, acquire_check) (rw foreign (rw valid refl))

-- Whatever other sessions commit in between: an answer that the user has the lock leaves the user as
-- its holder, and a refusal names another user who holds it, or names nobody if by then nobody does.
-- A lock of another user that has not expired at the call is never taken: the call is refused in its
-- holder's name, and the table is left as it was.
pub acquire_lock-Promise :
    (others : Others) (rqst user : ℕ) (email : String) (hours now : ℕ) (ls : List Lock)
    → Promise rqst user (acquire_lock others rqst user email hours now ls)
      × ((l : Lock)
          → first (is_lock rqst) ls ≡ some l
          → l.fulfiller_user_id ≢ user
          → is_expired now l ≡ false
          → acquire_lock others rqst user email hours now ls
            ≡ (being_prepared_by l.fulfiller_user_id, ls))
acquire_lock-Promise others rqst user email hours now ls = (
  acquire_lock_promised others rqst user email hours now ls,
  acquire_lock_respects others rqst user email hours now ls,
)

-- An acquisition puts the new lock at the head of the table.
acquire_insert_acquired :
    (others : Others) (rqst user : ℕ) (email : String) (hours now : ℕ) (ls : List Lock)
    → (acquire_insert others rqst user email hours now ls).0 ≡ acquired
    → (first (is_lock rqst) ls ≡ none)
      × ((acquire_insert others rqst user email hours now ls).1
          ≡ new_lock rqst user email hours now ∷ ls)
unfolding acquire_insert refused_insert
acquire_insert_acquired others rqst user email hours now ls got = ground arith

acquire_check_answer :
    (rqst user now : ℕ) (ls : List Lock) → (acquire_check rqst user now ls).0 ≢ some acquired
unfolding acquire_check
acquire_check_answer rqst user now ls = ground arith

after_check_acquired :
    (others : Others) (rqst user : ℕ) (email : String) (hours now : ℕ)
    (r : Option LockAnswer × List Lock)
    → r.0 ≢ some acquired
    → (after_check others rqst user email hours now r).0 ≡ acquired
    → first (is_lock rqst) (after_check others rqst user email hours now r).1
      ≡ some (new_lock rqst user email hours now)
unfolding after_check first
after_check_acquired others rqst user email hours now (none, ls) other got =
    let (free, head) =
      acquire_insert_acquired others rqst user email hours now (others.before_insert ls) got in
    rw head (ground arith)
after_check_acquired others rqst user email hours now (some a, ls) other got =
    absurd (other (ap some got))

acquire_lock_acquired :
    (others : Others) (rqst user : ℕ) (email : String) (hours now : ℕ) (ls : List Lock)
    → (acquire_lock others rqst user email hours now ls).0 ≡ acquired
    → first (is_lock rqst) (acquire_lock others rqst user email hours now ls).1
      ≡ some (new_lock rqst user email hours now)
unfolding acquire_lock
acquire_lock_acquired others rqst user email hours now ls got =
    after_check_acquired others rqst user email hours now (acquire_check rqst user now ls)
      (acquire_check_answer rqst user now ls) got

refused_insert-table : (rqst user : ℕ) (ls : List Lock) → (refused_insert rqst user ls).1 ≡ ls
unfolding refused_insert
refused_insert-table rqst user ls = ground arith

acquire_insert-IsExclusive :
    (others : Others) (rqst user : ℕ) (email : String) (hours now : ℕ) (ls : List Lock)
    → ((ks : List Lock) → IsExclusive ks → IsExclusive (others.after_refusal ks))
    → IsExclusive ls
    → IsExclusive (acquire_insert others rqst user email hours now ls).1
unfolding acquire_insert
acquire_insert-IsExclusive others rqst user email hours now ls keeps h =
    elim (Bool-cases (is_some (first (is_lock rqst) ls) || not others.keys_hold)) [
      | inl t ↦ rw t (
          subst IsExclusive (sym (refused_insert-table rqst user (others.after_refusal ls)))
            (keeps ls h))
      | inr t ↦ rw t (ground arith, h)
    ]

acquire_lock_keeps :
    (others : Others) (rqst user : ℕ) (email : String) (hours now : ℕ) (ls : List Lock)
    → ((ks : List Lock) → IsExclusive ks → IsExclusive (others.before_insert ks))
    → ((ks : List Lock) → IsExclusive ks → IsExclusive (others.after_refusal ks))
    → IsExclusive ls
    → IsExclusive (acquire_lock others rqst user email hours now ls).1
unfolding acquire_lock acquire_check after_check
acquire_lock_keeps others rqst user email hours now ls before after h =
    let insert_keeps : (ks : List Lock)
        → IsExclusive ks
        → IsExclusive
            (acquire_insert others rqst user email hours now (others.before_insert ks)).1 =
      λ ks k.
        acquire_insert-IsExclusive others rqst user email hours now (others.before_insert ks) after
          (before ks k) in
    elim (Option-cases (first (is_lock rqst) ls)) [
      | inl e ↦ rw (e, acquire_check) (insert_keeps ls h)
      | inr (l, e) ↦
          rw (e, acquire_check)
            (elim (Bool-cases (l.fulfiller_user_id == user)) [
              | inl t ↦ rw t h
              | inr t ↦ rw t (elim (Bool-cases (is_expired now l)) [
                | inl u ↦ rw u (insert_keeps (delete_lock rqst ls) (IsExclusive-filter _ ls h))
                | inr u ↦ rw u h
              ])
            ])
    ]

-- Nobody else gets the request's lock from this table, at any time up to the expiry of a lock that
-- was taken at `now` for `hours`, where 0 hours do not expire.
abbrev pub KeepsOut : ℕ → ℕ → ℕ → ℕ → List Lock → Type 0
KeepsOut rqst user hours now ls =
    (others : Others) (other : ℕ) (email : String) (hours' later : ℕ)
    → user ≢ other
    → (0 < hours → later ≤ now + hours * 3600)
    → acquire_lock others rqst other email hours' later ls ≡ (being_prepared_by user, ls)

new_lock_valid :
    (rqst user : ℕ) (email : String) (hours now later : ℕ)
    → (0 < hours → later ≤ now + hours * 3600)
    → is_expired later (new_lock rqst user email hours now) ≡ false
new_lock_valid rqst user email hours now later soon = elim (Bool-cases (ltb 0 hours)) [
  | inl t ↦ let late : later ≤ now + hours * 3600 = soon (ground arith) in rw t (ground arith)
  | inr t ↦ rw t refl
]

-- The table keeps at most one lock per request, if the other sessions keep that too; and a user who
-- has acquired the lock keeps every other user out until it expires: their calls on the table that
-- the acquisition left are refused in the user's name, and change nothing.
pub acquire_lock-IsExclusive :
    (others : Others) (rqst user : ℕ) (email : String) (hours now : ℕ) (ls : List Lock)
    → ((ks : List Lock) → IsExclusive ks → IsExclusive (others.before_insert ks))
    → ((ks : List Lock) → IsExclusive ks → IsExclusive (others.after_refusal ks))
    → IsExclusive ls
    → IsExclusive (acquire_lock others rqst user email hours now ls).1
      × ((acquire_lock others rqst user email hours now ls).0 ≡ acquired
          → KeepsOut rqst user hours now (acquire_lock others rqst user email hours now ls).1)
acquire_lock-IsExclusive others rqst user email hours now ls before after h = (
  acquire_lock_keeps others rqst user email hours now ls before after h,
  λ got others' other email' hours' later differ soon.
      acquire_lock_respects others' rqst other email' hours' later
        (acquire_lock others rqst user email hours now ls).1 (new_lock rqst user email hours now)
        (acquire_lock_acquired others rqst user email hours now ls got) differ
        (new_lock_valid rqst user email hours now later soon),
)
