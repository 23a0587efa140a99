-- ===== src/LogSanitizer/Redacted.antt =====
-- What a logged URL and a logged dict do not show.
use dmis_feature_branch.Base.{
  ℕ, ◌≡◌, ◌≢◌, refl, ap, sym, ◌∙◌, inl, inr, true, false, some, List, [], ◌∷◌, ◌++◌, any, All,
  All-append, Bool-cases, arith,
}
use dmis_feature_branch.Base.Text.{codes, is_empty, before, after, count}
use dmis_feature_branch.Store.Rows.{Text}
use dmis_feature_branch.LogSanitizer.{
  Value, printed, char_is, sanitize_for_log, redacted_query, sanitize_url_for_log, occurs,
  dict_item, dict_items, sanitize_dict_for_log,
}
use dmis_feature_branch.LogSanitizer.Clean.{
  IsNotControl, IsClean, truncate-IsClean, sanitize_for_log-IsClean,
}

module _ (c : ℕ) where
  before-append : (t u : Text) → All (λ d. d ≢ c) t → before c (t ++ (c ∷ u)) ≡ t
  before-append [] u h = ground arith
  before-append (d ∷ t) u h = ground (arith, before-append t u)

  after-append : (t u : Text) → All (λ d. d ≢ c) t → after c (t ++ (c ∷ u)) ≡ u
  after-append [] u h = ground arith
  after-append (d ∷ t) u h = ground (arith, after-append t u)

  any-append : (t u : Text) → any (char_is c) (t ++ (c ∷ u)) ≡ true
  any-append [] u = ground arith
  any-append (d ∷ t) u = ground (arith, any-append t u)

is_empty-append : (t : Text) (c : ℕ) (u : Text) → is_empty (t ++ (c ∷ u)) ≡ false
is_empty-append [] c u = refl
is_empty-append (d ∷ t) c u = refl

redacted_query-count :
    (q q' : Text)
    → q ≢ []
    → q' ≢ []
    → count b'=' q ≡ count b'=' q'
    → redacted_query q ≡ redacted_query q'
redacted_query-count [] q' n n' e = absurd (n refl)
redacted_query-count (c ∷ q) [] n n' e = absurd (n' refl)
redacted_query-count (c ∷ q) (d ∷ q') n n' e = rw e refl

url_lem :
    (path q : Text) (n : ℕ)
    → All (λ d. d ≢ b'?') path
    → sanitize_url_for_log (some (path ++ (b'?' ∷ q))) n
      ≡ sanitize_for_log (printed path) n ++ redacted_query q
unfolding sanitize_url_for_log
url_lem path q n h =
    rw
      (
        is_empty-append path b'?' q,
        any-append b'?' path q,
        before-append b'?' path q h,
        after-append b'?' path q h,
      )
      refl

-- Of a query the log shows how many values it has and nothing else: two URLs that differ only in their
-- queries, neither empty and both with as many equals signs, are logged alike.
pub sanitize_url_for_log_redacts :
    (path q q' : Text) (n : ℕ)
    → All (λ d. d ≢ b'?') path
    → q ≢ []
    → q' ≢ []
    → count b'=' q ≡ count b'=' q'
    → sanitize_url_for_log (some (path ++ (b'?' ∷ q))) n
      ≡ sanitize_url_for_log (some (path ++ (b'?' ∷ q'))) n
sanitize_url_for_log_redacts path q q' n h m m' e =
    url_lem path q n h
    ∙ ap (λ t. sanitize_for_log (printed path) n ++ t) (redacted_query-count q q' m m' e)
    ∙ sym (url_lem path q' n h)

-- the keys of a dict as they print
abbrev pub AllKeys : (Text → Type 0) → List (Text × Value) → Type 0
AllKeys P [] = Unit
AllKeys P ((k, v) ∷ d) = P k × AllKeys P d

module _ (lower : Text → Text) (sensitive : List Text) where
  dict_item-IsClean : (k : Text) (v : Value) → IsClean k → IsClean (dict_item lower sensitive k v)
  unfolding dict_item
  dict_item-IsClean k v h = All-append IsNotControl k _ h (
    omega arith,
    elim (Bool-cases (any (λ part. occurs part (lower k)) sensitive)) [
      | inl t ↦ rw t (omega arith)
      | inr t ↦ rw t (sanitize_for_log-IsClean v 100).0
    ],
  )

  dict_items-IsClean :
      (d : List (Text × Value)) → AllKeys IsClean d → IsClean (dict_items lower sensitive d)
  unfolding dict_items
  dict_items-IsClean [] h = tt
  dict_items-IsClean ((k, v) ∷ []) h = dict_item-IsClean k v h.0
  dict_items-IsClean ((k, v) ∷ kv ∷ d) h =
      All-append IsNotControl _ _ (dict_item-IsClean k v h.0)
        (All-append IsNotControl (codes ", ") _ (omega arith) (dict_items-IsClean (kv ∷ d) h.1))

  -- A dict is logged without control characters of ASCII if its keys have none: the values are
  -- sanitized, the keys are not.
  pub sanitize_dict_for_log-IsClean :
      (d : List (Text × Value)) (n : ℕ)
      → AllKeys IsClean d
      → IsClean (sanitize_dict_for_log lower sensitive d n)
  unfolding sanitize_dict_for_log
  sanitize_dict_for_log-IsClean d n h =
      truncate-IsClean n 0 (codes "...(truncated)}")
        (b'{' ∷ (dict_items lower sensitive d ++ codes "}")) (omega arith)
        (omega arith, All-append IsNotControl _ (codes "}") (dict_items-IsClean d h) (omega arith))
