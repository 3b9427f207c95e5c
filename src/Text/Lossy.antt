-- ===== src/Text/Lossy.antt =====
-- `String::from_utf8_lossy`: what is no UTF-8 becomes the replacement character, one for each longest
-- beginning of a character.
use rust_quote_streamer.Base.{
  ℕ, zero, suc, ◌+◌, ◌-◌, ◌*◌, ◌/◌, ◌%◌, ◌≤◌, ◌<◌, ◌≡◌, refl, ap, ◌∙◌, ◌⊎◌, inl, inr, Bool, ◌&&◌,
  List, [], ◌∷◌, ◌++◌, length, length-append, arith, All, ltb, leb, eqb, ltb→lt, if◌then◌else◌,
  Bool-cases,
}
use rust_quote_streamer.Text.Words.{Text}
use rust_quote_streamer.Text.Utf8.{utf8_char, as_bytes}

abbrev pub replacement : ℕ
replacement = 0xfffd

-- A byte that goes on with a character.
abbrev pub is_continuation : ℕ → Bool
is_continuation c = leb 0x80 c && leb c 0xbf

-- The second of three bytes, and of four.
abbrev pub is_second_of_three : ℕ → ℕ → Bool
is_second_of_three b c =
    if eqb b 0xe0
    then leb 0xa0 c && leb c 0xbf
    else if eqb b 0xed
    then leb 0x80 c && leb c 0x9f
    else is_continuation c

abbrev pub is_second_of_four : ℕ → ℕ → Bool
is_second_of_four b c =
    if eqb b 0xf0
    then leb 0x90 c && leb c 0xbf
    else if eqb b 0xf4
    then leb 0x80 c && leb c 0x8f
    else is_continuation c

-- The value so far, and one byte or two to come. A character, and the bytes behind it.
unfoldable pub last_byte : ℕ → List ℕ → ℕ × List ℕ
last_byte v [] = (replacement, [])
last_byte v (c ∷ s) = if is_continuation c then (v * 64 + (c - 0x80), s) else (replacement, c ∷ s)

unfoldable pub last_two_bytes : ℕ → List ℕ → ℕ × List ℕ
unfolding last_byte
last_two_bytes v [] = (replacement, [])
last_two_bytes v (c ∷ s) =
    if is_continuation c then last_byte (v * 64 + (c - 0x80)) s else (replacement, c ∷ s)

unfoldable pub after_three : ℕ → List ℕ → ℕ × List ℕ
unfolding last_byte
after_three b [] = (replacement, [])
after_three b (c ∷ s) =
    if is_second_of_three b c
    then last_byte ((b - 0xe0) * 64 + (c - 0x80)) s
    else (replacement, c ∷ s)

unfoldable pub after_four : ℕ → List ℕ → ℕ × List ℕ
unfolding last_two_bytes
after_four b [] = (replacement, [])
after_four b (c ∷ s) =
    if is_second_of_four b c
    then last_two_bytes ((b - 0xf0) * 64 + (c - 0x80)) s
    else (replacement, c ∷ s)

-- The first byte says how many there are.
unfoldable pub next_char : ℕ → List ℕ → ℕ × List ℕ
unfolding last_byte after_three after_four
next_char b s =
    if ltb b 0x80
    then (b, s)
    else if ltb b 0xc2
    then (replacement, s)
    else if ltb b 0xe0
    then last_byte (b - 0xc0) s
    else if ltb b 0xf0
    then after_three b s
    else if ltb b 0xf5
    then after_four b s
    else (replacement, s)

-- Each character takes a byte at least.
unfoldable pub decode : ℕ → List ℕ → Text
unfolding next_char
decode fuel [] = []
decode zero (b ∷ s) = []
decode (suc fuel) (b ∷ s) = let (c, rest) = next_char b s in c ∷ decode fuel rest

unfoldable pub from_utf8_lossy : List ℕ → Text
unfolding decode
from_utf8_lossy bytes = decode (length bytes) bytes

-- `char`: a code point that is no surrogate.
abbrev pub IsChar : ℕ → Type 0
IsChar c = (c < 0xd800) ⊎ ((0xe000 ≤ c) × (c < 0x110000))

two_bytes :
    (c : ℕ) (s : List ℕ)
    → 0x80 ≤ c
    → c < 0x800
    → next_char (0xc0 + c / 64) ((0x80 + c % 64) ∷ s) ≡ (c, s)
unfolding next_char
two_bytes c s low high = ground arith

three_bytes :
    (c : ℕ) (s : List ℕ)
    → IsChar c
    → 0x800 ≤ c
    → c < 0x10000
    → next_char (0xe0 + c / 4096) ((0x80 + c / 64 % 64) ∷ (0x80 + c % 64) ∷ s) ≡ (c, s)
unfolding next_char
three_bytes c s char low high = ground arith

four_bytes :
    (c : ℕ) (s : List ℕ)
    → 0x10000 ≤ c
    → c < 0x110000
    → next_char
        (0xf0 + c / 262144)
        ((0x80 + c / 4096 % 64) ∷ (0x80 + c / 64 % 64) ∷ (0x80 + c % 64) ∷ s)
      ≡ (c, s)
unfolding next_char
four_bytes c s low high = ground arith

one_byte : (c : ℕ) (s : List ℕ) → c < 0x80 → next_char c s ≡ (c, s)
unfolding next_char
one_byte c s low = ground arith

decode-next_char :
    (fuel b : ℕ) (s rest : List ℕ) (c : ℕ)
    → next_char b s ≡ (c, rest)
    → decode (suc fuel) (b ∷ s) ≡ c ∷ decode fuel rest
unfolding decode
decode-next_char fuel b s rest c e = rw e

decode-utf8_char :
    (fuel c : ℕ) (s : List ℕ) → IsChar c → decode (suc fuel) (utf8_char c ++ s) ≡ c ∷ decode fuel s
unfolding utf8_char
decode-utf8_char fuel c s char = elim (Bool-cases (ltb c 0x80)) [
  | inl one ↦ rw (one, decode-next_char fuel c s s c (one_byte c s (ltb→lt c 0x80 one)))
  | inr more ↦ elim (Bool-cases (ltb c 0x800)) [
    | inl two ↦ rw (
      more,
      two,
      decode-next_char fuel _ _ s c (two_bytes c s (ground arith) (ltb→lt c 0x800 two)),
    )
    | inr above ↦ elim (Bool-cases (ltb c 0x10000)) [
      | inl three ↦ rw (
        more,
        above,
        three,
        decode-next_char fuel _ _ s c
            (three_bytes c s char (ground arith) (ltb→lt c 0x10000 three)),
      )
      | inr four ↦ rw (
        more,
        above,
        four,
        decode-next_char fuel _ _ s c (four_bytes c s (ground arith) (ground arith)),
      )
    ]
  ]
]

utf8_char-suc : (c : ℕ) → 1 ≤ length (utf8_char c)
unfolding utf8_char
utf8_char-suc c = ground arith

-- Fuel for each byte is enough for each character.
decode-as_bytes :
    (s : Text) (fuel : ℕ) → All IsChar s → length (as_bytes s) ≤ fuel → decode fuel (as_bytes s) ≡ s
unfolding as_bytes decode
decode-as_bytes [] fuel chars enough = refl
decode-as_bytes (c ∷ s) zero (char, chars) enough =
    let some_byte = utf8_char-suc c in
    let split = length-append (utf8_char c) (as_bytes s) in absurd (omega arith)
decode-as_bytes (c ∷ s) (suc fuel) (char, chars) enough =
    decode-utf8_char fuel c (as_bytes s) char
    ∙ ap (λ r. c ∷ r)
        (decode-as_bytes s fuel chars (
          let some_byte = utf8_char-suc c in
          let split = length-append (utf8_char c) (as_bytes s) in omega arith))

-- A text that is encoded and decoded again is the text.
pub from_utf8_lossy-as_bytes : (s : Text) → All IsChar s → from_utf8_lossy (as_bytes s) ≡ s
unfolding from_utf8_lossy
from_utf8_lossy-as_bytes s chars = decode-as_bytes s (length (as_bytes s)) chars (omega arith)
