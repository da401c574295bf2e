-- ===== src/Prelude/Decimal.antt =====
-- Decimal numbers: `to_string` of an unsigned integer, and `str::parse` into one of width `w`.
use Prim.Native.Nat.{ℕ, zero, suc, ◌+◌, ◌-◌, ◌*◌, ◌/◌, ◌%◌, ◌≤◌, ◌<◌}
use mathlib.Core.Path.{◌≡◌, refl, ◌∙◌}
use mathlib.Core.Logic.{inl, inr}
use mathlib.Core.Bool.{◌&&◌}
use native.Mathlib.Omega.{arith}
use mathlib.Core.Option.{Option, none, some}
use mathlib.Core.List.{[], ◌∷◌}
use leantty.Prelude.Tests.{ltb, leb, ◌==◌, if◌then◌else◌, Bool-cases}
use leantty.Prelude.Lists.{All}
use leantty.Prelude.Texts.{Text}

-- The digits of `n` in front of `rest`; `suc n` rounds are enough.
digits_onto : ℕ → ℕ → Text → Text
digits_onto zero n rest = rest
digits_onto (suc f) n rest =
    let more = digits_onto f (n / 10) ((b'0' + n % 10) ∷ rest) in
    if ltb n 10 then (b'0' + n) ∷ rest else more

unfoldable pub to_string : ℕ → Text
unfolding digits_onto
to_string n = digits_onto (suc n) n []

-- The value of a run of digits read after the value `acc`; `none` at the first other character, and
-- as soon as the value passes `limit`.
unfoldable pub parse_digits : ℕ → ℕ → Text → Option ℕ
parse_digits limit acc [] = some acc
parse_digits limit acc (c ∷ cs) =
    let rest = parse_digits limit (acc * 10 + (c - b'0')) cs in
    if leb b'0' c && leb c b'9' && leb (acc * 10 + (c - b'0')) limit then rest else none

-- `str::parse` of an unsigned integer whose largest value is `limit`: one leading `+` is allowed, and
-- at least one digit is wanted.
unfoldable pub parse_unsigned : ℕ → Text → Option ℕ
unfolding parse_digits
parse_unsigned limit [] = none
parse_unsigned limit (c ∷ []) = parse_digits limit 0 (c ∷ [])
parse_unsigned limit (c ∷ d ∷ cs) =
    if c == b'+' then parse_digits limit 0 (d ∷ cs) else parse_digits limit 0 (c ∷ d ∷ cs)

parse_digits-digit :
    (limit acc d m : ℕ) (rest : Text)
    → d < 10
    → acc * 10 + d ≡ m
    → m ≤ limit
    → parse_digits limit acc ((b'0' + d) ∷ rest) ≡ parse_digits limit m rest
unfolding parse_digits
parse_digits-digit limit acc d m rest small e fits = ground arith

digits_onto-parse :
    (f n limit : ℕ) (rest : Text)
    → n < f
    → n ≤ limit
    → parse_digits limit 0 (digits_onto f n rest) ≡ parse_digits limit n rest
unfolding digits_onto
digits_onto-parse zero n limit rest h k = elim h [ ]
digits_onto-parse (suc f) n limit rest h k = elim (Bool-cases (ltb n 10)) [
  | inl small ↦ rw small (parse_digits-digit limit 0 n n rest (ground arith) (omega arith) k)
  | inr large ↦ rw large (
      digits_onto-parse f (n / 10) limit ((b'0' + n % 10) ∷ rest) (ground arith) (omega arith)
      ∙ parse_digits-digit limit (n / 10) (n % 10) n rest (omega arith) (omega arith) k)
]

digits_onto-cons :
    (f n : ℕ) (rest : Text) → 0 < f → (c : ℕ) × (cs : Text) × (digits_onto f n rest ≡ c ∷ cs)
unfolding digits_onto
digits_onto-cons zero n rest h = elim h [ ]
digits_onto-cons (suc zero) n rest h = elim (Bool-cases (ltb n 10)) [
  | inl small ↦ (b'0' + n, rest, rw small)
  | inr large ↦ (b'0' + n % 10, rest, rw large)
]
digits_onto-cons (suc (suc f)) n rest h = elim (Bool-cases (ltb n 10)) [
  | inl small ↦ (b'0' + n, rest, rw small)
  | inr large ↦ rw large (digits_onto-cons (suc f) (n / 10) ((b'0' + n % 10) ∷ rest) (omega arith))
]

parse_unsigned-digits :
    (limit c v : ℕ) (cs : Text)
    → parse_digits limit 0 (c ∷ cs) ≡ some v
    → parse_unsigned limit (c ∷ cs) ≡ some v
unfolding parse_unsigned
parse_unsigned-digits limit c v [] h = h
parse_unsigned-digits limit c v (d ∷ cs) h = ground arith

-- A printed number that fits the width is read back.
pub parse_unsigned-to_string :
    (limit n : ℕ) → n ≤ limit → parse_unsigned limit (to_string n) ≡ some n
unfolding to_string
parse_unsigned-to_string limit n h =
    let (c, cs, e) = digits_onto-cons (suc n) n [] (omega arith) in
    rw e (
      parse_unsigned-digits limit c n cs (
        rw (← e)
          (digits_onto-parse (suc n) n limit [] (omega arith) h ∙ unfold parse_digits in refl)))

digits_onto-digits :
    (f n : ℕ) (rest : Text)
    → All (λ c. (b'0' ≤ c) × (c ≤ b'9')) rest
    → All (λ c. (b'0' ≤ c) × (c ≤ b'9')) (digits_onto f n rest)
unfolding digits_onto
digits_onto-digits zero n rest h = h
digits_onto-digits (suc f) n rest h = elim (Bool-cases (ltb n 10)) [
  | inl small ↦ rw small ((omega arith, ground arith), h)
  | inr large ↦ rw large (digits_onto-digits f (n / 10) _ ((omega arith, omega arith), h))
]

-- A printed number consists of digits.
pub to_string-digits : (n : ℕ) → All (λ c. (b'0' ≤ c) × (c ≤ b'9')) (to_string n)
unfolding to_string
to_string-digits n = digits_onto-digits (suc n) n [] tt
