-- ===== src/Text.antt =====
-- Texts as the sources use them: str::trim, is_empty, contains, starts_with, and the Display of an
-- unsigned number. A text is the native `String`; `len` counts the bytes of its UTF-8, as str::len.
pub mod Laws
use Prim.Native.Char.{code}
use Prim.Native.String.{◌++◌ as append}
use nusa_launchd.Shared.{
  ℕ, zero, suc, ◌/◌, ◌%◌, ltb, List, [], ◌∷◌, String, ◌≡◌, ◌⊎◌, Bool, true, false, ◌&&◌, ◌||◌, leb,
  ◌==◌, if◌then◌else◌,
}

-- char::is_whitespace: the code points with the property White_Space.
unfoldable pub is_whitespace : ℕ → Bool
is_whitespace c =
    leb 9 c && leb c 13
    || c == 0x20
    || c == 0x85
    || c == 0xa0
    || c == 0x1680
    || leb 0x2000 c && leb c 0x200a
    || c == 0x2028
    || c == 0x2029
    || c == 0x202f
    || c == 0x205f
    || c == 0x3000

abbrev pub is_empty : String → Bool
is_empty String.[] = true
is_empty (String.◌∷◌ c s) = false

unfoldable pub any_char : (ℕ → Bool) → String → Bool
any_char p String.[] = false
any_char p (String.◌∷◌ c s) = p (code c) || any_char p s

unfoldable pub contains : ℕ → String → Bool
unfolding any_char
contains k s = any_char (λ c. c == k) s

unfoldable pub starts_with : ℕ → String → Bool
starts_with k String.[] = false
starts_with k (String.◌∷◌ c s) = code c == k

trim_start : String → String
trim_start String.[] = String.[]
trim_start (String.◌∷◌ c s) = if is_whitespace (code c) then trim_start s else String.◌∷◌ c s

trim_end : String → String
trim_end String.[] = String.[]
trim_end (String.◌∷◌ c s) =
    let rest = trim_end s in
    if is_empty rest && is_whitespace (code c) then String.[] else String.◌∷◌ c rest

unfoldable pub trim : String → String
unfolding trim_start trim_end is_whitespace
trim s = trim_end (trim_start s)

-- A character with the given code point stands in the text.
abbrev pub Occurs : ℕ → String → Type 0
Occurs k String.[] = ⊥
Occurs k (String.◌∷◌ c s) = (code c ≡ k) ⊎ Occurs k s

abbrev pub IsBlank : String → Type 0
IsBlank s = (k : ℕ) → Occurs k s → is_whitespace k ≡ true

-- The pieces that a format! line joins.
abbrev pub concat : List String → String
concat [] = ""
concat (s ∷ rest) = append s (concat rest)

digit : ℕ → String
digit zero = "0"
digit (suc zero) = "1"
digit (suc (suc zero)) = "2"
digit (suc (suc (suc zero))) = "3"
digit (suc (suc (suc (suc zero)))) = "4"
digit (suc (suc (suc (suc (suc zero))))) = "5"
digit (suc (suc (suc (suc (suc (suc zero)))))) = "6"
digit (suc (suc (suc (suc (suc (suc (suc zero))))))) = "7"
digit (suc (suc (suc (suc (suc (suc (suc (suc zero)))))))) = "8"
digit (suc (suc (suc (suc (suc (suc (suc (suc (suc n))))))))) = "9"

-- A number has at most as many digits as its value plus one, so the fuel `suc n` does not run out.
decimal_from : ℕ → ℕ → String → String
decimal_from zero n acc = acc
decimal_from (suc fuel) n acc =
    let all = append (digit (n % 10)) acc in
    let rest = decimal_from fuel (n / 10) all in if ltb n 10 then all else rest

-- The Display of an unsigned number.
unfoldable pub decimal : ℕ → String
unfolding decimal_from digit
decimal n = decimal_from (suc n) n ""
