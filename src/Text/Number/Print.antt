-- ===== src/Text/Number/Print.antt =====
-- `to_string` of an unsigned integer.
use rust_quote_streamer.Base.{ℕ, zero, suc, ◌+◌, ◌/◌, ◌%◌, [], ◌∷◌, eqb, if◌then◌else◌}
use rust_quote_streamer.Text.Words.{Text}

-- The digits of `n` in front of `out`. A number has fewer digits than `n + 1`, the fuel of
-- `to_decimal`.
unfoldable pub digits : ℕ → ℕ → Text → Text
digits zero n out = out
digits (suc fuel) n out =
    let digit = (b'0' + n % 10) ∷ out in
    let more = digits fuel (n / 10) digit in if eqb (n / 10) 0 then digit else more

unfoldable pub to_decimal : ℕ → Text
unfolding digits
to_decimal n = digits (suc n) n []
