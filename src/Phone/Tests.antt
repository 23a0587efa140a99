-- ===== src/Phone/Tests.antt =====
-- Telephone numbers at concrete inputs, with the tables of ASCII.
use dmis_feature_branch.Base.{ℕ, ◌≡◌, refl, Bool, true, false, some, [], ◌∷◌, arith, leb, ◌&&◌}
use dmis_feature_branch.Base.Text.{is_space, strip}
use dmis_feature_branch.Store.Rows.{Text}
use dmis_feature_branch.Phone.{
  Unicode, validate_phone_format, normalize_phone_number, local_digits, format_digits,
}
use dmis_feature_branch.Phone.Format.{normalize_phone_number-IsFixed}

abbrev ascii_digit : ℕ → Bool
ascii_digit c = leb b'0' c && leb c b'9'

digit_not_space : (c : ℕ) → ascii_digit c ≡ true → is_space c ≡ false
unfolding is_space
digit_not_space c h = ground arith

abbrev ascii : Unicode
ascii = record {
  is_digit = ascii_digit;
  one_digit = refl;
  plus_digit = refl;
  blank_digit = refl;
  open_digit = refl;
  close_digit = refl;
  dash_digit = refl;
  digit_space = digit_not_space;
}

-- 876 555 1234
abbrev spaced : Text
spaced = b'8' ∷ b'7' ∷ b'6' ∷ b' ' ∷ b'5' ∷ b'5' ∷ b'5' ∷ b' ' ∷ b'1' ∷ b'2' ∷ b'3' ∷ b'4' ∷ []

-- +1 (876) 555-1234
abbrev standard : Text
standard =
    b'+' ∷ b'1' ∷ b' ' ∷ b'(' ∷ b'8' ∷ b'7' ∷ b'6' ∷ b')' ∷ b' ' ∷ b'5' ∷ b'5' ∷ b'5' ∷ b'-' ∷ b'1'
    ∷ b'2' ∷ b'3' ∷ b'4' ∷ []

-- +1 876 555 123, a digit short: the country code becomes part of the area code 187
abbrev short : Text
short =
    b'+' ∷ b'1' ∷ b' ' ∷ b'8' ∷ b'7' ∷ b'6' ∷ b' ' ∷ b'5' ∷ b'5' ∷ b'5' ∷ b' ' ∷ b'1' ∷ b'2' ∷ b'3'
    ∷ []

short_number :
    normalize_phone_number ascii (some short)
    ≡ some (
        b'+' ∷ b'1' ∷ b' ' ∷ b'(' ∷ b'1' ∷ b'8' ∷ b'7' ∷ b')' ∷ b' ' ∷ b'6' ∷ b'5' ∷ b'5' ∷ b'-'
        ∷ b'5' ∷ b'1' ∷ b'2' ∷ b'3' ∷ [])
unfolding normalize_phone_number local_digits format_digits strip is_space
short_number = refl

normalize_phone_number-IsFixed_example :
    (validate_phone_format ascii (some standard) ≡ true)
    × (normalize_phone_number ascii (some standard) ≡ some (strip standard))
unfolding normalize_phone_number local_digits format_digits strip is_space
normalize_phone_number-IsFixed_example =
    normalize_phone_number-IsFixed ascii (some spaced) standard refl
