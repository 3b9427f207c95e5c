-- ===== src/Text/Words.antt =====
-- Whole texts, white space, prefixes and parts.
use Prim.Native.Char.{code}
use Prim.Native.String.{String}
use rust_quote_streamer.Base.{
  ℕ, ◌+◌, ◌-◌, ◌≡◌, refl, ◌↔◌, ◌≢◌, Bool, true, false, ◌&&◌, ◌||◌, List, [], ◌∷◌, ◌++◌, map, arith,
  Key, if◌then◌else◌, leb, eqb, eqb_iff, All,
}

abbrev pub Text : Type 0
Text = List ℕ

-- The characters of a literal.
abbrev pub codes : String → Text
codes String.[] = []
codes (String.◌∷◌ c s) = code c ∷ codes s

abbrev pub text_beq : Text → Text → Bool
text_beq [] [] = true
text_beq [] (y ∷ ys) = false
text_beq (x ∷ xs) [] = false
text_beq (x ∷ xs) (y ∷ ys) = eqb x y && text_beq xs ys

pub text_beq_iff : (s t : Text) → (text_beq s t ≡ true) ↔ (s ≡ t)
text_beq_iff [] [] = (λ _. refl, λ _. refl)
text_beq_iff [] (y ∷ ys) = (λ h. cc, λ h. cc)
text_beq_iff (x ∷ xs) [] = (λ h. cc, λ h. cc)
text_beq_iff (x ∷ xs) (y ∷ ys) = ground (arith, eqb_iff x y, text_beq_iff xs ys)

instance abbrev pub text_key : Key Text
text_key = record { same = text_beq; same_iff = text_beq_iff }

-- `char::is_whitespace`: the characters with the property White_Space.
unfoldable pub is_whitespace : ℕ → Bool
is_whitespace c =
    (leb 9 c && leb c 13)
    || eqb c 32
    || eqb c 0x85
    || eqb c 0xa0
    || eqb c 0x1680
    || (leb 0x2000 c && leb c 0x200a)
    || eqb c 0x2028
    || eqb c 0x2029
    || eqb c 0x202f
    || eqb c 0x205f
    || eqb c 0x3000

unfoldable pub is_empty : Text → Bool
is_empty [] = true
is_empty (c ∷ s) = false

unfoldable pub trim_start : Text → Text
trim_start [] = []
trim_start (c ∷ s) = let rest = trim_start s in if is_whitespace c then rest else c ∷ s

unfoldable pub trim_end : Text → Text
unfolding is_empty
trim_end [] = []
trim_end (c ∷ s) =
    let rest = trim_end s in if is_whitespace c && is_empty rest then [] else c ∷ rest

unfoldable pub trim : Text → Text
unfolding trim_start trim_end
trim s = trim_end (trim_start s)

unfoldable pub starts_with : Text → Text → Bool
starts_with s [] = true
starts_with [] (p ∷ ps) = false
starts_with (c ∷ s) (p ∷ ps) = eqb c p && starts_with s ps

-- Put a character in front of the first part.
abbrev pub prepend : ℕ → List Text → List Text
prepend c [] = (c ∷ []) ∷ []
prepend c (part ∷ parts) = (c ∷ part) ∷ parts

-- `s.split(sep)` collected: one part more than there are separators.
unfoldable pub split : ℕ → Text → List Text
split sep [] = [] ∷ []
split sep (c ∷ s) = let parts = split sep s in if eqb c sep then [] ∷ parts else prepend c parts

-- `s.split_whitespace()` collected: the maximal runs without white space. The second argument is the
-- word that is being read.
unfoldable pub words_from : Text → Text → List Text
unfolding is_empty
words_from [] word = if is_empty word then [] else word ∷ []
words_from (c ∷ s) word = elim (is_whitespace c) [
  | true ↦ if is_empty word then words_from s [] else word ∷ words_from s []
  | false ↦ words_from s (word ++ c ∷ [])
]

unfoldable pub split_whitespace : Text → List Text
unfolding words_from
split_whitespace s = words_from s []

unfoldable pub to_ascii_lowercase : ℕ → ℕ
to_ascii_lowercase c = if leb b'A' c && leb c b'Z' then c + 32 else c

unfoldable pub to_ascii_uppercase : ℕ → ℕ
to_ascii_uppercase c = if leb b'a' c && leb c b'z' then c - 32 else c

unfoldable pub eq_ignore_ascii_case : Text → Text → Bool
unfolding to_ascii_lowercase
eq_ignore_ascii_case [] [] = true
eq_ignore_ascii_case [] (d ∷ t) = false
eq_ignore_ascii_case (c ∷ s) [] = false
eq_ignore_ascii_case (c ∷ s) (d ∷ t) =
    eqb (to_ascii_lowercase c) (to_ascii_lowercase d) && eq_ignore_ascii_case s t

-- `str::to_uppercase`: ASCII letters here, any other character by the table of the Unicode standard,
-- which is an argument.
module _ (upper : ℕ → Text) where
  unfoldable pub uppercase_char : ℕ → Text
  unfolding to_ascii_uppercase
  uppercase_char c = if leb c 127 then to_ascii_uppercase c ∷ [] else upper c

  unfoldable pub to_uppercase : Text → Text
  to_uppercase [] = []
  to_uppercase (c ∷ s) = uppercase_char c ++ to_uppercase s

unfoldable pub is_ascii : Text → Bool
is_ascii [] = true
is_ascii (c ∷ s) = leb c 127 && is_ascii s

-- `str::to_lowercase`: of an ASCII text here, of any other text as the argument says.
unfoldable pub to_lowercase : (Text → Text) → Text → Text
unfolding is_ascii to_ascii_lowercase
to_lowercase lower s = if is_ascii s then map to_ascii_lowercase s else lower s

-- No white space in a text.
abbrev pub IsWord : Text → Type 0
IsWord s = (s ≢ []) × All (λ c. is_whitespace c ≡ false) s

abbrev pub Lacks : ℕ → Text → Type 0
Lacks b = All (λ c. eqb c b ≡ false)

-- Words, each behind one space.
unfoldable pub spaced : List Text → Text
spaced [] = []
spaced (w ∷ ws) = 32 ∷ (w ++ spaced ws)
