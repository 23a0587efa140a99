-- ===== src/LogSanitizer/Clean.antt =====
-- No control character of ASCII gets into the log, and no more text than asked for.
use dmis_feature_branch.Base.{
  ℕ, ◌+◌, ◌-◌, ◌≤◌, ◌≡◌, ◌≢◌, ◌⊎◌, inl, inr, [], ◌∷◌, ltb, leb, length, All, All-append, Bool-cases,
  arith,
}
use dmis_feature_branch.Base.Text.{
  codes, take, All-replace, All-take, length-take-le, length-append,
}
use dmis_feature_branch.Store.Rows.{Text}
use dmis_feature_branch.LogSanitizer.{
  Value, null, unprintable, printed, replace_crlf, is_ctrl, char_is, escape, cut, truncate,
  sanitize_within, sanitize_for_log,
}

-- no control character of ASCII
abbrev pub IsNotControl : ℕ → Type 0
IsNotControl c = (32 ≤ c) × (c ≢ 127)

abbrev pub IsClean : Text → Type 0
IsClean t = All IsNotControl t

All-trivial : (t : Text) → All (λ _. Unit {0}) t
All-trivial [] = tt
All-trivial (c ∷ t) = (tt, All-trivial t)

abbrev IsNoFeed : ℕ → Type 0
IsNoFeed c = c ≢ 10

abbrev IsNoEnd : ℕ → Type 0
IsNoEnd c = (c ≢ 10) × (c ≢ 13)

abbrev IsTabOrNotControl : ℕ → Type 0
IsTabOrNotControl c = (c ≢ 127) × ((c ≡ 9) ⊎ (32 ≤ c))

escape-IsClean : (s : Text) → IsClean (escape s)
unfolding escape
escape-IsClean s =
    All-replace IsTabOrNotControl IsNotControl (char_is 9) (codes "[TAB]") _ (λ c h e. ground arith)
      (omega arith)
      (All-replace IsNoEnd IsTabOrNotControl is_ctrl (codes "[CTRL]") _ (λ c h e. ground arith)
        (ground arith)
        (All-replace IsNoFeed IsNoEnd (char_is 13) (codes "[CR]") _ (λ c h e. ground arith)
          (omega arith)
          (All-replace (λ _. Unit {0}) IsNoFeed (char_is 10) (codes "[LF]") _
            (λ c h e. ground arith) (omega arith) (All-trivial (replace_crlf s)))))

cut-IsClean : (plus minus : ℕ) (s : Text) → IsClean s → IsClean (cut plus minus s)
cut-IsClean plus minus s h = elim (Bool-cases (leb minus plus)) [
  | inl e ↦ rw e (All-take IsNotControl (plus - minus) s h)
  | inr e ↦ rw e (All-take IsNotControl (length s - (minus - plus)) s h)
]

pub truncate-IsClean :
    (plus minus : ℕ) (mark s : Text)
    → IsClean mark
    → IsClean s
    → IsClean (truncate plus minus mark s)
unfolding truncate
truncate-IsClean plus minus mark s m h = elim (Bool-cases (ltb plus (length s + minus))) [
  | inl e ↦ rw e (All-append IsNotControl (cut plus minus s) mark (cut-IsClean plus minus s h) m)
  | inr e ↦ rw e h
]

pub sanitize_within-IsClean : (plus minus : ℕ) (v : Value) → IsClean (sanitize_within plus minus v)
unfolding sanitize_within
sanitize_within-IsClean plus minus null = ground arith
sanitize_within-IsClean plus minus unprintable = ground arith
sanitize_within-IsClean plus minus (printed s) =
    truncate-IsClean plus minus _ (escape s) (ground arith) (escape-IsClean s)

length-truncate-le : (n : ℕ) (mark s : Text) → length (truncate n 0 mark s) ≤ n + length mark
unfolding truncate
length-truncate-le n mark s = ground (arith, length-append (take n s) mark, length-take-le n s)

sanitize_for_log-le : (v : Value) (n : ℕ) → length (sanitize_for_log v n) ≤ n + 20
unfolding sanitize_for_log sanitize_within
sanitize_for_log-le null n = omega arith
sanitize_for_log-le unprintable n = omega arith
sanitize_for_log-le (printed s) n =
    omega (arith, length-truncate-le n (codes "...(truncated)") (escape s))

-- Whatever is sanitized, what goes into the log has no control character of ASCII (none below
-- 32, and not 127), so no line feed, carriage return or tabulator, and is at most 20 characters longer than the limit: 14 for the mark of a truncated text,
-- 20 for what stands for an object that does not print.
pub sanitize_for_log-IsClean :
    (v : Value) (n : ℕ) → IsClean (sanitize_for_log v n) × (length (sanitize_for_log v n) ≤ n + 20)
unfolding sanitize_for_log
sanitize_for_log-IsClean v n = (sanitize_within-IsClean n 0 v, sanitize_for_log-le v n)
