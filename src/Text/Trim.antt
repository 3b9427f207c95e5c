-- ===== src/Text/Trim.antt =====
-- Trimming of white space behind a command.
use rust_quote_streamer.Base.{
  ℕ, ◌≡◌, ◌≢◌, refl, ap, sym, ◌∙◌, true, false, List, [], ◌∷◌, ◌++◌, All, append_assoc, arith,
}
use rust_quote_streamer.Text.Words.{
  Text, IsWord, spaced, is_whitespace, is_empty, trim, trim_start, trim_end, is_empty,
}

abbrev pub IsBlank : Text → Type 0
IsBlank = All (λ c. is_whitespace c ≡ true)

trim_end-IsBlank : (s : Text) → IsBlank s → trim_end s ≡ []
unfolding trim_end
trim_end-IsBlank [] h = refl
trim_end-IsBlank (c ∷ s) (hc, hs) = rw (hc, trim_end-IsBlank s hs)

-- Characters in front that are no white space stay.
trim_end-front :
    (w r tail : Text)
    → All (λ c. is_whitespace c ≡ false) w
    → trim_end (r ++ tail) ≡ r
    → trim_end ((w ++ r) ++ tail) ≡ w ++ r
unfolding trim_end
trim_end-front [] r tail h e = e
trim_end-front (c ∷ w) r tail (hc, hw) e = rw (hc, trim_end-front w r tail hw e)

-- So does a space in front of a text that is not empty.
trim_end-space : (s r : Text) → r ≢ [] → trim_end s ≡ r → trim_end (32 ∷ s) ≡ 32 ∷ r
unfolding trim_end is_whitespace
trim_end-space s [] ne e = absurd (ne refl)
trim_end-space s (c ∷ r) ne e = rw e

append-ne-nil : (w r : Text) → w ≢ [] → w ++ r ≢ []
append-ne-nil [] r ne = absurd (ne refl)
append-ne-nil (c ∷ w) r ne = λ e. cc

trim_end-spaced :
    (ws : List Text) (tail : Text)
    → All IsWord ws
    → IsBlank tail
    → trim_end (spaced ws ++ tail) ≡ spaced ws
unfolding spaced
trim_end-spaced [] tail h blank = trim_end-IsBlank tail blank
trim_end-spaced (w ∷ ws) tail ((hw, no_space), hs) blank =
    trim_end-space ((w ++ spaced ws) ++ tail) (w ++ spaced ws) (append-ne-nil w (spaced ws) hw)
      (trim_end-front w (spaced ws) tail no_space (trim_end-spaced ws tail hs blank))

trim_start-word : (w s : Text) → IsWord w → trim_start (w ++ s) ≡ w ++ s
unfolding trim_start
trim_start-word [] s (hw, h) = absurd (hw refl)
trim_start-word (c ∷ w) s (hw, (hc, h)) = rw hc

-- A line of words with one space between two and white space behind is trimmed to the words.
pub trim-spaced :
    (w : Text) (ws : List Text) (tail : Text)
    → IsWord w
    → All IsWord ws
    → IsBlank tail
    → trim ((w ++ spaced ws) ++ tail) ≡ w ++ spaced ws
unfolding trim
trim-spaced w ws tail hw hs blank =
    ap trim_end (
      ap trim_start (append_assoc w (spaced ws) tail)
      ∙ trim_start-word w (spaced ws ++ tail) hw
      ∙ sym (append_assoc w (spaced ws) tail))
    ∙ trim_end-front w (spaced ws) tail hw.1 (trim_end-spaced ws tail hs blank)

is_empty-append : (s : Text) (c : ℕ) → is_empty (s ++ c ∷ []) ≡ false
unfolding is_empty
is_empty-append [] c = refl
is_empty-append (d ∷ s) c = refl

trim_end-last : (s : Text) (c : ℕ) → is_whitespace c ≡ false → trim_end (s ++ c ∷ []) ≡ s ++ c ∷ []
unfolding trim_end is_empty
trim_end-last [] c h = rw h
trim_end-last (d ∷ s) c h = rw (trim_end-last s c h, is_empty-append s c) (ground arith)

-- A text that begins and ends with other characters is trimmed already.
pub trim-framed :
    (b c : ℕ) (s : Text)
    → is_whitespace b ≡ false
    → is_whitespace c ≡ false
    → trim (b ∷ (s ++ c ∷ [])) ≡ b ∷ (s ++ c ∷ [])
unfolding trim trim_start
trim-framed b c s hb hc = rw hb (trim_end-last (b ∷ s) c hc)
