-- ===== src/Prelude/Texts.antt =====
-- Rust text. A `String` or `&str` is the list of its Unicode scalar values, so `chars()` is the list
-- itself and `len()`, which counts bytes of UTF-8, is `str_len`.
use Prim.Native.Nat.{ℕ, ◌+◌}
use Prim.Native.Char.{code}
use Prim.Native.String.{String}
use mathlib.Core.Path.{◌≡◌, refl}
use mathlib.Core.Logic.{◌↔◌}
use mathlib.Core.Bool.{Bool, true, false, ◌&&◌, ◌||◌}
use mathlib.Core.Option.{Option, none, some}
use mathlib.Core.List.{List, [], ◌∷◌, ◌++◌}
use native.Mathlib.Omega.{arith}
use leantty.Prelude.Tests.{ltb, leb, ◌==◌, if◌then◌else◌}

abbrev pub Text : Type 0
Text = List ℕ

abbrev pub codes : String → Text
codes String.[] = []
codes (String.◌∷◌ c s) = code c ∷ codes s

-- `char::is_control`: the general category Cc.
abbrev pub is_control : ℕ → Bool
is_control c = ltb c 0x20 || leb 0x7f c && leb c 0x9f

-- `char::is_ascii_alphanumeric`.
abbrev pub is_ascii_alphanumeric : ℕ → Bool
is_ascii_alphanumeric c =
    leb b'0' c && leb c b'9' || leb b'A' c && leb c b'Z' || leb b'a' c && leb c b'z'

-- `char::len_utf8`.
abbrev pub len_utf8 : ℕ → ℕ
len_utf8 c = if ltb c 0x80 then 1 else if ltb c 0x800 then 2 else if ltb c 0x10000 then 3 else 4

-- `str::len`.
abbrev pub str_len : Text → ℕ
str_len [] = 0
str_len (c ∷ cs) = len_utf8 c + str_len cs

-- `==` on texts.
unfoldable pub text_eq : Text → Text → Bool
text_eq [] [] = true
text_eq (x ∷ xs) (y ∷ ys) = x == y && text_eq xs ys
text_eq _ _ = false

pub text_eq_iff : (a b : Text) → (text_eq a b ≡ true) ↔ (a ≡ b)
unfolding text_eq
text_eq_iff (x ∷ a) (y ∷ b) = ground (arith, text_eq_iff a b)
text_eq_iff _ _ = ground arith

pub text_eq_refl : (a : Text) → text_eq a a ≡ true
text_eq_refl a = (text_eq_iff a a).1 refl

-- `str::starts_with`.
unfoldable pub starts_with : Text → Text → Bool
starts_with s [] = true
starts_with [] (p ∷ ps) = false
starts_with (c ∷ cs) (p ∷ ps) = c == p && starts_with cs ps

-- `str::split` at one separator: always at least one piece.
abbrev pub cons_head : ℕ → List Text → List Text
cons_head c [] = (c ∷ []) ∷ []
cons_head c (p ∷ ps) = (c ∷ p) ∷ ps

unfoldable pub split : ℕ → Text → List Text
split sep [] = [] ∷ []
split sep (c ∷ cs) = let rest = split sep cs in if c == sep then [] ∷ rest else cons_head c rest

-- `str::split_inclusive` at one separator: every piece but the last ends in it, and none is empty.
unfoldable pub split_inclusive : ℕ → Text → List Text
split_inclusive sep [] = []
split_inclusive sep (c ∷ cs) =
    let rest = split_inclusive sep cs in if c == sep then (c ∷ []) ∷ rest else cons_head c rest

abbrev cons_some : ℕ → Option Text → Option Text
cons_some c none = none
cons_some c (some cs) = some (c ∷ cs)

-- `str::strip_suffix`.
unfoldable pub strip_suffix : Text → Text → Option Text
strip_suffix suffix [] = if text_eq [] suffix then some [] else none
strip_suffix suffix (c ∷ cs) =
    let rest = cons_some c (strip_suffix suffix cs) in
    if text_eq (c ∷ cs) suffix then some [] else rest

-- `[T]::join` of texts.
unfoldable pub join : ℕ → List Text → Text
join sep [] = []
join sep (p ∷ []) = p
join sep (p ∷ q ∷ ps) = p ++ (sep ∷ join sep (q ∷ ps))

abbrev pub concat : List Text → Text
concat [] = []
concat (p ∷ ps) = p ++ concat ps
