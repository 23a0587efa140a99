-- ===== src/LogSanitizer.antt =====
-- app/security/log_sanitizer.py: what is written to the log of values that users supply. A text is the
-- list of its code points.
pub mod Clean
pub mod Redacted
mod Tests
use dmis_feature_branch.Base.{
  ℕ, ◌+◌, ◌-◌, Bool, true, false, Option, none, some, List, [], ◌∷◌, ◌++◌, ltb, leb, ◌==◌, ◌&&◌,
  ◌||◌, not, if◌then◌else◌, length, any,
}
use dmis_feature_branch.Base.Text.{codes, is_empty, take, replace, before, after, count, decimal}
use dmis_feature_branch.Store.Rows.{Text}

-- An argument of sanitize_for_log: None, an object whose `str` raises, or one that prints as a text.
pub data Value : Type 0 where
  null : Value
  unprintable : Value
  printed : Text → Value

-- `s.replace("\r\n", "[CRLF]")`
abbrev pub replace_crlf : Text → Text
replace_crlf [] = []
replace_crlf (c ∷ []) = c ∷ []
replace_crlf (c ∷ d ∷ t) =
    let found = codes "[CRLF]" ++ replace_crlf t in
    let other = c ∷ replace_crlf (d ∷ t) in if c == 13 && d == 10 then found else other

-- the class `[\x00-\x08\x0b\x0c\x0e-\x1f\x7f]`
abbrev pub is_ctrl : ℕ → Bool
is_ctrl c = leb c 8 || c == 11 || c == 12 || (leb 14 c && leb c 31) || c == 127

abbrev pub char_is : ℕ → ℕ → Bool
char_is a c = c == a

unfoldable pub escape : Text → Text
escape s = replace (char_is 9) (codes "[TAB]") (
    replace is_ctrl (codes "[CTRL]")
      (replace (char_is 13) (codes "[CR]") (replace (char_is 10) (codes "[LF]") (replace_crlf s))))

-- `s[:n]` for `n = plus - minus`, which counts from the end if it is negative
abbrev pub cut : ℕ → ℕ → Text → Text
cut plus minus s =
    if leb minus plus then take (plus - minus) s else take (length s - (minus - plus)) s

-- The truncation to `max_length = plus - minus`.
unfoldable pub truncate : ℕ → ℕ → Text → Text → Text
truncate plus minus mark s = if ltb plus (length s + minus) then cut plus minus s ++ mark else s

-- sanitize_for_log with `max_length = plus - minus`
unfoldable pub sanitize_within : ℕ → ℕ → Value → Text
unfolding escape truncate
sanitize_within plus minus null = codes "[None]"
sanitize_within plus minus unprintable = codes "[UnprintableObject]"
sanitize_within plus minus (printed s) = truncate plus minus (codes "...(truncated)") (escape s)

unfoldable pub sanitize_for_log : Value → ℕ → Text
unfolding sanitize_within
sanitize_for_log v max_length = sanitize_within max_length 0 v

-- what is written of a query
abbrev pub redacted_query : Text → Text
redacted_query [] = []
redacted_query (c ∷ q) = codes "?[" ++ (decimal (count b'=' (c ∷ q)) ++ codes " param(s) redacted]")

abbrev pub query_part : Text → Text
query_part url = if any (char_is b'?') url then redacted_query (after b'?' url) else []

unfoldable pub sanitize_url_for_log : Option Text → ℕ → Text
unfolding sanitize_for_log
sanitize_url_for_log none max_length = codes "[EmptyURL]"
sanitize_url_for_log (some url) max_length =
    if is_empty url
    then codes "[EmptyURL]"
    else sanitize_for_log (printed (before b'?' url)) max_length ++ query_part url

-- `part in t`
abbrev pub starts_with : Text → Text → Bool
starts_with [] t = true
starts_with (p ∷ ps) [] = false
starts_with (p ∷ ps) (c ∷ cs) = p == c && starts_with ps cs

abbrev pub occurs : Text → Text → Bool
occurs part [] = is_empty part
occurs part (c ∷ cs) = starts_with part (c ∷ cs) || occurs part cs

abbrev pub sensitive_keys : List Text
sensitive_keys =
    codes "password"
    ∷ codes "secret"
    ∷ codes "token"
    ∷ codes "key"
    ∷ codes "auth"
    ∷ codes "credential"
    ∷ codes "ssn"
    ∷ codes "credit_card"
    ∷ codes "card_number"
    ∷ codes "cvv"
    ∷ codes "pin"
    ∷ []

-- `str.lower` is an argument. A dict is the list of its items, with each key as it prints.
module _ (lower : Text → Text) (sensitive : List Text) where
  unfoldable pub dict_item : Text → Value → Text
  unfolding sanitize_for_log
  dict_item key v =
      key
      ++ (b'='
          ∷ (if any (λ part. occurs part (lower key)) sensitive
              then codes "[REDACTED]"
              else sanitize_for_log v 100))

  unfoldable pub dict_items : List (Text × Value) → Text
  unfolding dict_item
  dict_items [] = []
  dict_items ((k, v) ∷ []) = dict_item k v
  dict_items ((k, v) ∷ kv ∷ d) = dict_item k v ++ (codes ", " ++ dict_items (kv ∷ d))

  -- sanitize_dict_for_log on a dict
  unfoldable pub sanitize_dict_for_log : List (Text × Value) → ℕ → Text
  unfolding dict_items truncate
  sanitize_dict_for_log d max_length =
      truncate max_length 0 (codes "...(truncated)}") (b'{' ∷ (dict_items d ++ codes "}"))

-- An exception prints as the name of its class and a message.
unfoldable pub sanitize_exception_for_log : Text → Value → ℕ → Text
unfolding sanitize_within
sanitize_exception_for_log exc_type message max_length =
    exc_type ++ (codes ": " ++ sanitize_within max_length (length exc_type + 3) message)
