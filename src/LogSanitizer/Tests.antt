-- ===== src/LogSanitizer/Tests.antt =====
-- The log's theorems at concrete inputs.
use dmis_feature_branch.Base.{◌+◌, ◌≤◌, ◌≡◌, refl, some, [], ◌∷◌, ◌++◌, arith, length}
use dmis_feature_branch.Base.Text.{codes}
use dmis_feature_branch.Store.Rows.{Text}
use dmis_feature_branch.LogSanitizer.{printed, escape, sanitize_for_log, sanitize_url_for_log}
use dmis_feature_branch.LogSanitizer.Clean.{IsClean, sanitize_for_log-IsClean}
use dmis_feature_branch.LogSanitizer.Redacted.{sanitize_url_for_log_redacts}

-- a name with a forged second line
abbrev forged : Text
forged = codes "eve" ++ (13 ∷ 10 ∷ codes "admin" ++ (9 ∷ codes "in"))

escaped : escape forged ≡ codes "eve[CRLF]admin[TAB]in"
unfolding escape
escaped = refl

-- The next line control character U+0085 is kept.
next_line_kept : escape (133 ∷ []) ≡ 133 ∷ []
unfolding escape
next_line_kept = refl

sanitize_for_log-IsClean_example :
    IsClean (sanitize_for_log (printed forged) 4)
    × (length (sanitize_for_log (printed forged) 4) ≤ 4 + 20)
sanitize_for_log-IsClean_example = sanitize_for_log-IsClean (printed forged) 4

sanitize_url_for_log_redacts_example :
    sanitize_url_for_log (some (codes "/login" ++ (b'?' ∷ codes "pin=1234"))) 200
    ≡ sanitize_url_for_log (some (codes "/login" ++ (b'?' ∷ codes "pin=9"))) 200
sanitize_url_for_log_redacts_example =
    sanitize_url_for_log_redacts (codes "/login") (codes "pin=1234") (codes "pin=9") 200
      (ground arith) (ground arith) (ground arith) refl
