-- ===== src/Phone/Format.antt =====
-- The format that normalize_phone_number produces and validate_phone_format tests.
use dmis_feature_branch.Base.{
  ℕ, ◌≡◌, refl, sym, ap, subst, ==_iff, inl, inr, Bool, true, false, Option, none, some, List, [],
  ◌∷◌, ◌++◌, suc, arith, ◌==◌, ltb, ◌&&◌, if◌then◌else◌, filter, length, Bool-cases, All,
  true_and_false,
}
use dmis_feature_branch.Base.Text.{
  drop, is_space, lstrip, rstrip, strip, rstrip-append, rstrip_end, newline_is_space,
  plus_not_space,
}
use dmis_feature_branch.Store.Rows.{Text}
use dmis_feature_branch.Phone.{
  Unicode, starts_with, matches, phone_regex, validate_phone_format, local_digits, format_digits,
  normalize_phone_number,
}

length_cons :
    (n : ℕ) (t : Text) → length t ≡ suc n → (c : ℕ) × (cs : Text) × (t ≡ c ∷ cs) × (length cs ≡ n)
length_cons n [] h = ground arith
length_cons n (c ∷ cs) h = (c, cs, refl, ground arith)

length_zero : (t : Text) → length t ≡ 0 → t ≡ []
length_zero [] h = refl
length_zero (c ∷ cs) h = ground arith

All-filter_holds : (p : ℕ → Bool) (t : Text) → All (λ c. p c ≡ true) (filter p t)
All-filter_holds p [] = tt
All-filter_holds p (c ∷ cs) = elim (Bool-cases (p c)) [
  | inl e ↦ rw e (e, All-filter_holds p cs)
  | inr e ↦ rw e (All-filter_holds p cs)
]

All-drop_one :
    (p : ℕ → Bool) (t : Text) → All (λ c. p c ≡ true) t → All (λ c. p c ≡ true) (drop 1 t)
All-drop_one p [] h = tt
All-drop_one p (c ∷ cs) h = h.1

if_All :
    (P : ℕ → Type 0) (b : Bool) (xs ys : Text) → All P xs → All P ys → All P (if b then xs else ys)
if_All P true xs ys x y = x
if_All P false xs ys x y = y

-- A text that a pattern matches to its very end, character by character.
abbrev Shape : List (ℕ → Bool) → Text → Type 0
Shape [] t = t ≡ []
Shape (p ∷ ps) t = (c : ℕ) × (cs : Text) × (t ≡ c ∷ cs) × (p c ≡ true) × Shape ps cs

module _ (u : Unicode) where
  local_digits-All : (t : Text) → All (λ c. u.is_digit c ≡ true) (local_digits u t)
  unfolding local_digits
  local_digits-All t =
      if_All _ (starts_with (b'+' ∷ b'1' ∷ []) t) _ _
        (if_All _ (ltb 10 (length (filter u.is_digit t))) _ _ dropped kept)
        (if_All _ (starts_with (b'1' ∷ []) t && length (filter u.is_digit t) == 11) _ _ dropped
          kept)
    where
      kept : All (λ c. u.is_digit c ≡ true) (filter u.is_digit t)
      kept = All-filter_holds u.is_digit t

      dropped : All (λ c. u.is_digit c ≡ true) (drop 1 (filter u.is_digit t))
      dropped = All-drop_one u.is_digit (filter u.is_digit t) kept

  format_digits-length : (ds q : Text) → format_digits u ds ≡ some q → length ds ≡ 10
  unfolding format_digits
  format_digits-length ds q h = ground arith

  formatted :
      (a b c d e f g h i j : ℕ)
      → All (λ c. u.is_digit c ≡ true) (a ∷ b ∷ c ∷ d ∷ e ∷ f ∷ g ∷ h ∷ i ∷ j ∷ [])
      → (q : Text) → format_digits u (a ∷ b ∷ c ∷ d ∷ e ∷ f ∷ g ∷ h ∷ i ∷ j ∷ []) ≡ some q
      → validate_phone_format u (some q) ≡ true
  unfolding format_digits validate_phone_format strip
  formatted a b c d e f g h i j all q eq =
      subst (λ t. validate_phone_format u t ≡ true) eq
        (rw
          (
            plus_not_space,
            rstrip-append
                (b'+' ∷ b'1' ∷ b' ' ∷ b'(' ∷ a ∷ b ∷ c ∷ b')' ∷ b' ' ∷ d ∷ e ∷ f ∷ b'-' ∷ g ∷ h ∷ i
                  ∷ [])
                j (u.digit_space j all.1.1.1.1.1.1.1.1.1.0),
            all.0,
            all.1.0,
            all.1.1.0,
            all.1.1.1.0,
            all.1.1.1.1.0,
            all.1.1.1.1.1.0,
            all.1.1.1.1.1.1.0,
            all.1.1.1.1.1.1.1.0,
            all.1.1.1.1.1.1.1.1.0,
            all.1.1.1.1.1.1.1.1.1.0,
          )
          refl)

  ten :
      (ds q : Text)
      → All (λ c. u.is_digit c ≡ true) ds
      → format_digits u ds ≡ some q
      → validate_phone_format u (some q) ≡ true
  ten ds q all h =
      let (a, t9, e9, l9) = length_cons 9 ds (format_digits-length ds q h) in
      let (b, t8, e8, l8) = length_cons 8 t9 l9 in
      let (c, t7, e7, l7) = length_cons 7 t8 l8 in
      let (d, t6, e6, l6) = length_cons 6 t7 l7 in
      let (e, t5, e5, l5) = length_cons 5 t6 l6 in
      let (f, t4, e4, l4) = length_cons 4 t5 l5 in
      let (g, t3, e3, l3) = length_cons 3 t4 l4 in
      let (k, t2, e2, l2) = length_cons 2 t3 l3 in
      let (i, t1, e1, l1) = length_cons 1 t2 l2 in
      let (j, t0, e0, l0) = length_cons 0 t1 l1 in
      let z = length_zero t0 l0 in
      let same : ds ≡ a ∷ b ∷ c ∷ d ∷ e ∷ f ∷ g ∷ k ∷ i ∷ j ∷ [] = cc in
      formatted a b c d e f g k i j (subst (All (λ c. u.is_digit c ≡ true)) same all) q
        (subst (λ z. format_digits u z ≡ some q) same h)

  -- If a number can be normalized, then the result passes the test of the format.
  pub validate_phone_format-normalize_phone_number :
      (t : Option Text) (q : Text)
      → normalize_phone_number u t ≡ some q
      → validate_phone_format u (some q) ≡ true
  unfolding normalize_phone_number
  validate_phone_format-normalize_phone_number none q h = cc
  validate_phone_format-normalize_phone_number (some []) q h = cc
  validate_phone_format-normalize_phone_number (some (x ∷ xs)) q h =
      ten (local_digits u (strip (x ∷ xs))) q (local_digits-All (strip (x ∷ xs))) h

  matches-Shape :
      (ps : List (ℕ → Bool)) (t : Text)
      → matches ps t ≡ true
      → ((ys : Text) (c : ℕ) → t ≡ ys ++ (c ∷ []) → is_space c ≡ false)
      → Shape ps t
  matches-Shape [] [] h ends = refl
  matches-Shape [] (c ∷ []) h ends =
      absurd (true_and_false (is_space 10) newline_is_space (ends [] 10 (ground arith)))
  matches-Shape [] (c ∷ d ∷ t) h ends = cc
  matches-Shape (p ∷ ps) [] h ends = cc
  matches-Shape (p ∷ ps) (c ∷ cs) h ends = (
    c,
    cs,
    refl,
    ground arith,
    matches-Shape ps cs (ground arith) (λ ys d e. ends (c ∷ ys) d (ap (λ z. c ∷ z) e)),
  )

  normal :
      (a b c d e f g h i j : ℕ)
      → All (λ c. u.is_digit c ≡ true) (a ∷ b ∷ c ∷ d ∷ e ∷ f ∷ g ∷ h ∷ i ∷ j ∷ [])
      → format_digits u (
          local_digits u (
            b'+' ∷ b'1' ∷ b' ' ∷ b'(' ∷ a ∷ b ∷ c ∷ b')' ∷ b' ' ∷ d ∷ e ∷ f ∷ b'-' ∷ g ∷ h ∷ i ∷ j
            ∷ []))
        ≡ some (
            b'+' ∷ b'1' ∷ b' ' ∷ b'(' ∷ a ∷ b ∷ c ∷ b')' ∷ b' ' ∷ d ∷ e ∷ f ∷ b'-' ∷ g ∷ h ∷ i ∷ j
            ∷ [])
  unfolding format_digits local_digits
  normal a b c d e f g h i j all =
      rw
        (
          u.plus_digit, u.one_digit, u.blank_digit, u.open_digit, u.close_digit, u.dash_digit,
          all.0, all.1.0, all.1.1.0, all.1.1.1.0, all.1.1.1.1.0, all.1.1.1.1.1.0, all.1.1.1.1.1.1.0,
          all.1.1.1.1.1.1.1.0, all.1.1.1.1.1.1.1.1.0, all.1.1.1.1.1.1.1.1.1.0,
        )
        refl

  shaped : (t : Text) → Shape (phone_regex u) t → format_digits u (local_digits u t) ≡ some t
  shaped t s =
      let (c0, t0, e0, p0, s0) = s in
      let q0 = (==_iff c0 b'+').0 p0 in
      let (c1, t1, e1, p1, s1) = s0 in
      let q1 = (==_iff c1 b'1').0 p1 in
      let (c2, t2, e2, p2, s2) = s1 in
      let q2 = (==_iff c2 b' ').0 p2 in
      let (c3, t3, e3, p3, s3) = s2 in
      let q3 = (==_iff c3 b'(').0 p3 in
      let (c4, t4, e4, p4, s4) = s3 in
      let (c5, t5, e5, p5, s5) = s4 in
      let (c6, t6, e6, p6, s6) = s5 in
      let (c7, t7, e7, p7, s7) = s6 in
      let q7 = (==_iff c7 b')').0 p7 in
      let (c8, t8, e8, p8, s8) = s7 in
      let q8 = (==_iff c8 b' ').0 p8 in
      let (c9, t9, e9, p9, s9) = s8 in
      let (c10, t10, e10, p10, s10) = s9 in
      let (c11, t11, e11, p11, s11) = s10 in
      let (c12, t12, e12, p12, s12) = s11 in
      let q12 = (==_iff c12 b'-').0 p12 in
      let (c13, t13, e13, p13, s13) = s12 in
      let (c14, t14, e14, p14, s14) = s13 in
      let (c15, t15, e15, p15, s15) = s14 in
      let (c16, t16, e16, p16, s16) = s15 in
      let same : t
          ≡ b'+' ∷ b'1' ∷ b' ' ∷ b'(' ∷ c4 ∷ c5 ∷ c6 ∷ b')' ∷ b' ' ∷ c9 ∷ c10 ∷ c11 ∷ b'-' ∷ c13
            ∷ c14 ∷ c15 ∷ c16 ∷ [] =
        cc in
      subst (λ z. format_digits u (local_digits u z) ≡ some z) (sym same)
        (normal c4 c5 c6 c9 c10 c11 c13 c14 c15 c16
          (p4, (p5, (p6, (p9, (p10, (p11, (p13, (p14, (p15, (p16, tt)))))))))))

  -- A number that passes the test of the format is normalized to itself, less the white space
  -- around it.
  pub normalize_phone_number-validate_phone_format :
      (t : Text)
      → validate_phone_format u (some t) ≡ true
      → normalize_phone_number u (some t) ≡ some (strip t)
  unfolding normalize_phone_number validate_phone_format strip
  normalize_phone_number-validate_phone_format [] h = cc
  normalize_phone_number-validate_phone_format (x ∷ xs) h =
      let t = lstrip (x ∷ xs) in
      shaped _ (matches-Shape (phone_regex u) (rstrip t) h (λ ys c e. rstrip_end t ys c e))

  -- What a number is normalized to passes the test of the format, and is normalized to itself, less the
  -- white space around it.
  pub normalize_phone_number-IsFixed :
      (t : Option Text) (q : Text)
      → normalize_phone_number u t ≡ some q
      → (validate_phone_format u (some q) ≡ true)
        × (normalize_phone_number u (some q) ≡ some (strip q))
  normalize_phone_number-IsFixed t q h =
      let valid = validate_phone_format-normalize_phone_number t q h in
      (valid, normalize_phone_number-validate_phone_format q valid)
