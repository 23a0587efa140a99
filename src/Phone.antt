-- ===== src/Phone.antt =====
-- app/core/phone_utils.py: the one format of telephone numbers, and how others are brought to it.
-- A text is the list of its code points. Which of them Python takes for digits (`\d`) is in the
-- Unicode tables, which are an argument.
pub mod Format
mod Tests
use dmis_feature_branch.Base.{
  ℕ, ◌≡◌, Bool, true, false, Option, none, some, List, [], ◌∷◌, ◌++◌, zero, suc, arith, ◌==◌, ltb,
  not, ◌&&◌, if◌then◌else◌, filter, length, ◌-◌,
}
use dmis_feature_branch.Base.Text.{strip, is_space, is_empty, take, drop}
use dmis_feature_branch.Store.Rows.{Text}

-- The tables, and what the module relies on.
pub record Unicode : Type 0 where
  pub is_digit : ℕ → Bool
  pub one_digit : is_digit b'1' ≡ true
  pub plus_digit : is_digit b'+' ≡ false
  pub blank_digit : is_digit b' ' ≡ false
  pub open_digit : is_digit b'(' ≡ false
  pub close_digit : is_digit b')' ≡ false
  pub dash_digit : is_digit b'-' ≡ false
  pub digit_space : (c : ℕ) → is_digit c ≡ true → is_space c ≡ false

abbrev pub starts_with : Text → Text → Bool
starts_with [] t = true
starts_with (p ∷ ps) [] = false
starts_with (p ∷ ps) (c ∷ cs) = p == c && starts_with ps cs

-- `t[a:b]`
abbrev pub slice : ℕ → ℕ → Text → Text
slice a b t = take (b - a) (drop a t)

-- A pattern is a list of character classes; `$` also matches before a final newline.
abbrev pub at_end : Text → Bool
at_end [] = true
at_end (c ∷ []) = c == 10
at_end (c ∷ d ∷ t) = false

abbrev pub matches : List (ℕ → Bool) → Text → Bool
matches [] t = at_end t
matches (p ∷ ps) [] = false
matches (p ∷ ps) (c ∷ cs) = p c && matches ps cs

abbrev pub char : ℕ → ℕ → Bool
char a c = c == a

-- `+1 (`, `) ` and `-`
abbrev pub opening : Text
opening = b'+' ∷ b'1' ∷ b' ' ∷ b'(' ∷ []

abbrev pub closing : Text
closing = b')' ∷ b' ' ∷ []

abbrev pub dash : Text
dash = b'-' ∷ []

module _ (u : Unicode) where
  abbrev pub phone_regex : List (ℕ → Bool)
  phone_regex =
      char b'+'
      ∷ char b'1'
      ∷ char b' '
      ∷ char b'('
      ∷ u.is_digit
      ∷ u.is_digit
      ∷ u.is_digit
      ∷ char b')'
      ∷ char b' '
      ∷ u.is_digit
      ∷ u.is_digit
      ∷ u.is_digit
      ∷ char b'-'
      ∷ u.is_digit
      ∷ u.is_digit
      ∷ u.is_digit
      ∷ u.is_digit
      ∷ []

  -- None and the empty text are refused alike.
  unfoldable pub validate_phone_format : Option Text → Bool
  validate_phone_format none = false
  validate_phone_format (some t) = not (is_empty t) && matches phone_regex (strip t)

  -- the digits without the country code
  unfoldable pub local_digits : Text → Text
  local_digits cleaned =
      let digits = filter u.is_digit cleaned in
      if starts_with (b'+' ∷ b'1' ∷ []) cleaned
      then (if ltb 10 (length digits) then drop 1 digits else digits)
      else if starts_with (b'1' ∷ []) cleaned && length digits == 11
      then drop 1 digits
      else digits

  unfoldable pub format_digits : Text → Option Text
  format_digits digits =
      if not (length digits == 10)
      then none
      else some (
          opening
          ++ (slice 0 3 digits ++ (closing ++ (slice 3 6 digits ++ (dash ++ slice 6 10 digits)))))

  unfoldable pub normalize_phone_number : Option Text → Option Text
  unfolding local_digits format_digits
  normalize_phone_number none = none
  normalize_phone_number (some t) =
      if is_empty t then none else format_digits (local_digits (strip t))
