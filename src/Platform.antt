-- ===== src/Platform.antt =====
-- What the program uses and does not implement: `f64` with its print and parser, `rand_distr`,
-- `serde_json`, the Unicode tables of upper and lower case and socket addresses.
-- Records of operations, and of the laws that the theorems assume of them.
use rust_quote_streamer.Base.{
  ℕ, ◌^◌, ◌≤◌, ◌<◌, ◌≡◌, Bool, true, Option, some, List, [], ◌∷◌, ◌++◌, Result,
}
use rust_quote_streamer.Text.{Text, Lacks}

-- A value of `serde_json`, as the macro `json!` builds it from a field of a quote.
pub data Json (F : Type 0) : Type 0 where
  string : Text → Json F
  float : F → Json F
  uint : ℕ → Json F

pub record Platform : Type 1 where
  pub F64 : Type 0
  -- The literal `m / 10 ^ k`.
  pub literal : ℕ → ℕ → F64
  pub mul : F64 → F64 → F64
  pub le : F64 → F64 → Bool
  pub lt : F64 → F64 → Bool
  -- `x as u32`
  pub as_u32 : F64 → ℕ
  pub show_f64 : F64 → Text
  pub parse_f64 : Text → Option F64
  pub NormalError : Type 0
  pub show_normal_error : NormalError → Text
  pub LogNormal : Type 0
  pub log_normal : F64 → F64 → Result NormalError LogNormal
  -- A generator seeded from entropy, and what the distribution draws from it.
  pub StdRng : Type 0
  pub sample : LogNormal → StdRng → F64
  -- `json!({…}).to_string()`
  pub show_json : List (Text × Json F64) → Text
  -- `char::to_uppercase` outside ASCII.
  pub upper : ℕ → Text
  -- `str::to_lowercase` of a text that is not ASCII.
  pub lower : Text → Text
  pub SocketAddr : Type 0
  pub parse_addr : Text → Option SocketAddr

-- The print of a float has no `|`, and is read back as the same float, which the documentation of
-- `Display for f64` promises for every float that is not a NaN.
pub record PrintsFloats (p : Platform) (IsNumber : p.F64 → Type 0) : Type 0 where
  pub no_bar : (x : p.F64) → Lacks b'|' (p.show_f64 x)
  pub reads_back : (x : p.F64) → IsNumber x → p.parse_f64 (p.show_f64 x) ≡ some x

-- Rounding is monotone: a factor of at most one does not raise a literal. The cast to `u32` keeps the
-- order and is exact at a literal that is a whole number of 32 bits.
pub record RoundsFloats (p : Platform) : Type 0 where
  pub mul_le :
      (x : p.F64) (n : ℕ)
      → p.le x (p.literal 1 0) ≡ true
      → p.le (p.mul x (p.literal n 0)) (p.literal n 0) ≡ true
  pub as_u32_mono : (x y : p.F64) → p.le x y ≡ true → p.as_u32 x ≤ p.as_u32 y
  pub as_u32_literal : (n : ℕ) → n < 2 ^ 32 → p.as_u32 (p.literal n 0) ≡ n

-- The JSON of an object stands in braces.
pub record PrintsJson (p : Platform) : Type 0 where
  pub inner : List (Text × Json p.F64) → Text
  pub braces :
      (fields : List (Text × Json p.F64)) → p.show_json fields ≡ b'{' ∷ (inner fields ++ b'}' ∷ [])
