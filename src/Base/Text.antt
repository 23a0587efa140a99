-- ===== src/Base/Text.antt =====
-- Texts as lists of code points, and methods of `str`.
use Prim.Native.Char.{code}
use dmis_feature_branch.Base.{
  ℕ, zero, suc, ◌+◌, ◌/◌, ◌%◌, ◌≤◌, ◌<◌, ◌≡◌, refl, inl, inr, String, Bool, true, false, List, [],
  ◌∷◌, ◌++◌, arith, ltb, leb, ◌==◌, ◌&&◌, ◌||◌, not, any, if◌then◌else◌, length, total, All,
  All-append, Bool-cases, ==_refl,
}

-- the code points of a text literal
abbrev pub codes : String → List ℕ
codes String.[] = []
codes (String.◌∷◌ c s) = code c ∷ codes s

abbrev pub is_empty : List ℕ → Bool
is_empty [] = true
is_empty (c ∷ cs) = false

-- `t[:n]` and `t[n:]`
abbrev pub take : ℕ → List ℕ → List ℕ
take zero t = []
take (suc n) [] = []
take (suc n) (c ∷ cs) = c ∷ take n cs

abbrev pub drop : ℕ → List ℕ → List ℕ
drop zero t = t
drop (suc n) [] = []
drop (suc n) (c ∷ cs) = drop n cs

-- `t.replace(c, by)` for the characters `c` that pass the test
abbrev pub replace : (ℕ → Bool) → List ℕ → List ℕ → List ℕ
replace p by [] = []
replace p by (c ∷ t) = let rest = replace p by t in if p c then by ++ rest else c ∷ rest

-- `t.split(c)[0]`, and `t.split(c, 1)[1]` if there is one
abbrev pub before : ℕ → List ℕ → List ℕ
before c [] = []
before c (d ∷ t) = let rest = before c t in if d == c then [] else d ∷ rest

abbrev pub after : ℕ → List ℕ → List ℕ
after c [] = []
after c (d ∷ t) = let rest = after c t in if d == c then t else rest

-- `t.count(c)`
abbrev pub count : ℕ → List ℕ → ℕ
count c = total (λ d. if d == c then 1 else 0)

-- `str(n)`; the fuel falls by one where the number falls to a tenth
unfoldable pub decimal_fuel : ℕ → ℕ → List ℕ
decimal_fuel zero n = []
decimal_fuel (suc f) n =
    let rest = decimal_fuel f (n / 10) in
    if ltb n 10 then (b'0' + n) ∷ [] else rest ++ ((b'0' + n % 10) ∷ [])

unfoldable pub decimal : ℕ → List ℕ
unfolding decimal_fuel
decimal n = decimal_fuel (suc n) n

-- The fuel is enough: more of it changes nothing.
pub decimal_fuel_enough : (f g n : ℕ) → n < f → n < g → decimal_fuel f n ≡ decimal_fuel g n
unfolding decimal_fuel
decimal_fuel_enough zero g n h k = absurd (omega arith)
decimal_fuel_enough (suc f) zero n h k = absurd (omega arith)
decimal_fuel_enough (suc f) (suc g) n h k = ground (arith, decimal_fuel_enough f g (n / 10))

pub length-append : (xs ys : List ℕ) → length (xs ++ ys) ≡ length xs + length ys
length-append [] ys = omega arith
length-append (x ∷ xs) ys = omega (arith, length-append xs ys)

pub length-take-le : (n : ℕ) (t : List ℕ) → length (take n t) ≤ n
length-take-le zero t = omega arith
length-take-le (suc n) [] = omega arith
length-take-le (suc n) (c ∷ cs) = omega (arith, length-take-le n cs)

pub All-take : (P : ℕ → Type 0) (n : ℕ) (t : List ℕ) → All P t → All P (take n t)
All-take P zero t h = tt
All-take P (suc n) [] h = tt
All-take P (suc n) (c ∷ cs) h = (h.0, All-take P n cs h.1)

-- What the replaced characters and the replacement have, the whole text has.
pub All-replace :
    (P Q : ℕ → Type 0) (p : ℕ → Bool) (by t : List ℕ)
    → ((c : ℕ) → P c → p c ≡ false → Q c)
    → All Q by
    → All P t
    → All Q (replace p by t)
All-replace P Q p by [] f b h = tt
All-replace P Q p by (c ∷ t) f b h = elim (Bool-cases (p c)) [
  | inl e ↦ rw e (All-append Q by (replace p by t) b (All-replace P Q p by t f b h.1))
  | inr e ↦ rw e (f c h.0 e, All-replace P Q p by t f b h.1)
]

-- the code points that `str.isspace` accepts
unfoldable pub is_space : ℕ → Bool
is_space c =
    (leb 9 c && leb c 13)
    || (leb 28 c && leb c 32)
    || c == 133
    || c == 160
    || c == 5760
    || (leb 8192 c && leb c 8202)
    || c == 8232
    || c == 8233
    || c == 8239
    || c == 8287
    || c == 12288

abbrev pub lstrip : List ℕ → List ℕ
lstrip [] = []
lstrip (c ∷ t) = if is_space c then lstrip t else c ∷ t

abbrev pub rstrip : List ℕ → List ℕ
rstrip [] = []
rstrip (c ∷ t) =
    let rest = rstrip t in if is_space c && not (any (λ x. true) rest) then [] else c ∷ rest

-- `t.strip()`
unfoldable pub strip : List ℕ → List ℕ
strip t = rstrip (lstrip t)

pub rstrip-append :
    (xs : List ℕ) (c : ℕ) → is_space c ≡ false → rstrip (xs ++ (c ∷ [])) ≡ xs ++ (c ∷ [])
rstrip-append [] c h = rw h refl
rstrip-append (x ∷ []) c h = rw h (ground arith)
rstrip-append (x ∷ y ∷ xs) c h = rw (rstrip-append (y ∷ xs) c h) (ground arith)

-- What is left does not end in white space.
pub rstrip_end : (xs ys : List ℕ) (c : ℕ) → rstrip xs ≡ ys ++ (c ∷ []) → is_space c ≡ false
rstrip_end [] [] c e = cc
rstrip_end [] (y ∷ ys) c e = cc
rstrip_end (x ∷ xs) [] c e = ground arith
rstrip_end (x ∷ xs) (y ∷ ys) c e = ground (arith, rstrip_end xs ys c)

pub newline_is_space : is_space 10 ≡ true
unfolding is_space
newline_is_space = refl

pub plus_not_space : is_space b'+' ≡ false
unfolding is_space
plus_not_space = refl

-- `t == u`
abbrev pub text_beq : List ℕ → List ℕ → Bool
text_beq [] [] = true
text_beq [] (c ∷ u) = false
text_beq (c ∷ t) [] = false
text_beq (c ∷ t) (d ∷ u) = c == d && text_beq t u

pub text_beq_refl : (t : List ℕ) → text_beq t t ≡ true
text_beq_refl [] = refl
text_beq_refl (c ∷ t) = rw (==_refl c) (text_beq_refl t)

pub text_beq_same : (t u : List ℕ) → text_beq t u ≡ true → t ≡ u
text_beq_same [] [] h = refl
text_beq_same [] (c ∷ u) h = cc
text_beq_same (c ∷ t) [] h = cc
text_beq_same (c ∷ t) (d ∷ u) h = let same = text_beq_same t u in ground (arith, same)
