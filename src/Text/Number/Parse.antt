-- ===== src/Text/Number/Parse.antt =====
-- `str::parse` into an unsigned integer type with the given largest value: an optional `+`, then one
-- or more digits, and no overflow.
use rust_quote_streamer.Base.{
  ℕ, ◌+◌, ◌-◌, ◌*◌, [], ◌∷◌, Option, none, some, leb, eqb, ◌&&◌, if◌then◌else◌,
}
use rust_quote_streamer.Text.Words.{Text}

module _ (max_value : ℕ) where
  -- Each round is a checked multiplication and a checked addition.
  unfoldable pub parse_digits : Text → ℕ → Option ℕ
  parse_digits [] acc = some acc
  parse_digits (c ∷ s) acc =
      let rest = parse_digits s (acc * 10 + (c - b'0')) in
      if leb b'0' c && leb c b'9' && leb (acc * 10 + (c - b'0')) max_value then rest else none

  unfoldable pub parse_nonempty : Text → Option ℕ
  unfolding parse_digits
  parse_nonempty [] = none
  parse_nonempty (c ∷ s) = parse_digits (c ∷ s) 0

  unfoldable pub parse_uint : Text → Option ℕ
  unfolding parse_nonempty
  parse_uint [] = none
  parse_uint (c ∷ s) = if eqb c b'+' then parse_nonempty s else parse_nonempty (c ∷ s)
