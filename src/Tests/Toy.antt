-- ===== src/Tests/Toy.antt =====
-- A platform that can be computed with: floats are millionths, a seed is added to the factor, an
-- address is any text.
use Prim.Native.Nat.{min}
use rust_quote_streamer.Base.{
  ℕ, ◌+◌, ◌-◌, ◌*◌, ◌/◌, ◌^◌, ◌≤◌, ◌≡◌, refl, true, List, [], ◌∷◌, ◌++◌, Option, none, some, ok,
  arith, leb, ltb,
}
use rust_quote_streamer.Text.{Text, codes, to_decimal, parse_uint, parse_uint-to_decimal}
use rust_quote_streamer.Platform.{
  Platform, Json, string, float, uint, PrintsFloats, RoundsFloats, PrintsJson,
}
use rust_quote_streamer.StockQuote.{StockQuote, u64_max}
use rust_quote_streamer.StockQuote.RoundTrip.{to_decimal-Lacks}

abbrev pub show_field : Json ℕ → Text
show_field (string s) = s
show_field (float x) = to_decimal x
show_field (uint n) = to_decimal n

abbrev pub show_fields : List (Text × Json ℕ) → Text
show_fields [] = []
show_fields ((name, value) ∷ fields) =
    name ++ b':' ∷ (show_field value ++ b',' ∷ show_fields fields)

abbrev pub parse_address : Text → Option Text
parse_address [] = none
parse_address (c ∷ s) = some (c ∷ s)

abbrev pub toy : Platform
toy = record {
  F64 = ℕ;
  literal = λ m k. m * 1000000 / 10 ^ k;
  mul = λ x y. x * y / 1000000;
  le = leb;
  lt = ltb;
  as_u32 = λ x. min (x / 1000000) (2 ^ 32 - 1);
  show_f64 = to_decimal;
  parse_f64 = parse_uint u64_max;
  NormalError = Unit {0};
  show_normal_error = λ _. [];
  LogNormal = ℕ;
  log_normal = λ mu sigma. ok sigma;
  StdRng = ℕ;
  sample = λ l seed. 1000000 + seed;
  show_json = λ fields. b'{' ∷ (show_fields fields ++ b'}' ∷ []);
  upper = λ c. c ∷ [];
  lower = λ s. s;
  SocketAddr = Text;
  parse_addr = parse_address;
}

abbrev pub IsU64 : ℕ → Type 0
IsU64 x = x ≤ u64_max

pub toy-PrintsFloats : PrintsFloats toy IsU64
toy-PrintsFloats = record { no_bar = to_decimal-Lacks; reads_back = parse_uint-to_decimal u64_max }

pub toy-PrintsJson : PrintsJson toy
toy-PrintsJson = record { inner = show_fields; braces = λ fields. refl }

leb→le : (a b : ℕ) → leb a b ≡ true → a ≤ b
leb→le a b h = ground arith

le→leb : (a b : ℕ) → a ≤ b → leb a b ≡ true
le→leb a b h = ground arith

mul_mono : (x n : ℕ) → x ≤ 1000000 → x * n ≤ 1000000 * n
mul_mono x n h = grind arith

mul_unit : (x n : ℕ) → x ≤ 1000000 → x * (n * 1000000) / 1000000 ≤ n * 1000000
mul_unit x n h = omega (arith, mul_mono x n h)

mul_one : (x n : ℕ) → x ≤ 1000000 → x * (n * 1000000 / 10 ^ 0) / 1000000 ≤ n * 1000000 / 10 ^ 0
mul_one x n h =
    let whole : n * 1000000 / 10 ^ 0 ≡ n * 1000000 = omega arith in rw whole (mul_unit x n h)

pub toy-RoundsFloats : RoundsFloats toy
toy-RoundsFloats = record {
  mul_le = λ x n h. le→leb _ _ (mul_one x n (leb→le x 1000000 h));
  as_u32_mono = λ x y h. omega (arith, leb→le x y h);
  as_u32_literal = λ n h. omega arith;
}

abbrev pub aapl : Text
aapl = codes "AAPL"

abbrev pub quote : StockQuote toy
quote = record { ticker = aapl; price = 150000000; volume = 1000; timestamp = 123456 }
