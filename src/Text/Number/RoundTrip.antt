-- ===== src/Text/Number/RoundTrip.antt =====
-- The print of an integer against its parser.
use rust_quote_streamer.Base.{
  ℕ, zero, suc, ◌+◌, ◌-◌, ◌*◌, ◌/◌, ◌%◌, ◌≤◌, ◌<◌, ◌≡◌, ◌≢◌, refl, inl, inr, [], ◌∷◌, some, arith,
  eqb, Bool-cases, All,
}
use rust_quote_streamer.Text.Words.{Text}
use rust_quote_streamer.Text.Number.Print.{digits, to_decimal}
use rust_quote_streamer.Text.Number.Parse.{parse_digits, parse_nonempty, parse_uint}

abbrev pub IsDigits : Text → Type 0
IsDigits s = All (λ c. (b'0' ≤ c) × (c ≤ b'9')) s

digits-IsDigits : (fuel n : ℕ) (out : Text) → IsDigits out → IsDigits (digits fuel n out)
unfolding digits
digits-IsDigits zero n out h = h
digits-IsDigits (suc fuel) n out h = elim (Bool-cases (eqb (n / 10) 0)) [
  | inl last ↦ rw last (omega arith, h)
  | inr more ↦ rw more (digits-IsDigits fuel (n / 10) _ (omega arith, h))
]

pub to_decimal-IsDigits : (n : ℕ) → IsDigits (to_decimal n)
unfolding to_decimal
to_decimal-IsDigits n = digits-IsDigits (suc n) n [] tt

parse_last :
    (m n : ℕ) (out : Text)
    → n ≤ m
    → parse_digits m ((b'0' + n % 10) ∷ out) (n / 10) ≡ parse_digits m out n
unfolding parse_digits
parse_last m n out h = ground arith

parse_digits-digits :
    (m fuel n : ℕ) (out : Text)
    → n < fuel
    → n ≤ m
    → parse_digits m (digits fuel n out) 0 ≡ parse_digits m out n
unfolding digits
parse_digits-digits m zero n out enough h = absurd (omega arith)
parse_digits-digits m (suc fuel) n out enough h =
    ground
      (arith, parse_last m n out h, parse_digits-digits m fuel (n / 10) ((b'0' + n % 10) ∷ out))

parse_uint-parse_digits :
    (m : ℕ) (s : Text) → s ≢ [] → IsDigits s → parse_uint m s ≡ parse_digits m s 0
unfolding parse_uint
parse_uint-parse_digits m [] ne h = absurd (ne refl)
parse_uint-parse_digits m (c ∷ s) ne h = ground arith

digits-ne-nil : (fuel n : ℕ) (out : Text) → out ≢ [] → digits fuel n out ≢ []
unfolding digits
digits-ne-nil zero n out h = h
digits-ne-nil (suc fuel) n out h =
    ground (arith, digits-ne-nil fuel (n / 10) ((b'0' + n % 10) ∷ out))

to_decimal-ne-nil : (n : ℕ) → to_decimal n ≢ []
unfolding to_decimal digits
to_decimal-ne-nil n = ground (arith, digits-ne-nil n (n / 10) ((b'0' + n % 10) ∷ []))

pub parse_uint-to_decimal : (m n : ℕ) → n ≤ m → parse_uint m (to_decimal n) ≡ some n
unfolding to_decimal
parse_uint-to_decimal m n h =
    rw (parse_uint-parse_digits m _ (to_decimal-ne-nil n) (to_decimal-IsDigits n))
      (rw (parse_digits-digits m (suc n) n [] (omega arith) h) (unfold parse_digits in refl))

parse_digits-le :
    (m : ℕ) (s : Text) (acc : ℕ) {n : ℕ} → acc ≤ m → parse_digits m s acc ≡ some n → n ≤ m
unfolding parse_digits
parse_digits-le m [] acc h e = ground arith
parse_digits-le m (c ∷ s) acc {n} h e =
    ground (arith, parse_digits-le m s (acc * 10 + (c - b'0')) {n = n})

parse_nonempty-le : (m : ℕ) (s : Text) {n : ℕ} → parse_nonempty m s ≡ some n → n ≤ m
unfolding parse_nonempty
parse_nonempty-le m [] e = cc
parse_nonempty-le m (c ∷ s) e = parse_digits-le m (c ∷ s) 0 (omega arith) e

-- What is parsed fits the type.
pub parse_uint-le : (m : ℕ) (s : Text) {n : ℕ} → parse_uint m s ≡ some n → n ≤ m
unfolding parse_uint
parse_uint-le m [] e = cc
parse_uint-le m (c ∷ s) {n} e =
    ground (arith, parse_nonempty-le m s {n = n}, parse_nonempty-le m (c ∷ s) {n = n})
