-- ===== src/Text/Parts.antt =====
-- Splitting against joining.
use rust_quote_streamer.Base.{
  Bool-cases, inl, inr, eqb, ℕ, ◌≡◌, ◌≢◌, refl, false, List, [], ◌∷◌, ◌++◌, arith, All, append-nil,
  append_assoc,
}
use rust_quote_streamer.Text.Words.{
  Text, Lacks, IsWord, split, prepend, words_from, split_whitespace, spaced, is_whitespace,
}

pub split-append : (sep : ℕ) (p s : Text) → Lacks sep p → split sep (p ++ sep ∷ s) ≡ p ∷ split sep s
unfolding split
split-append sep [] s h = ground arith
split-append sep (c ∷ p) s (hc, hp) = rw (hc, split-append sep p s hp)

pub split-Lacks : (sep : ℕ) (p : Text) → Lacks sep p → split sep p ≡ p ∷ []
unfolding split
split-Lacks sep [] h = refl
split-Lacks sep (c ∷ p) (hc, hp) = rw (hc, split-Lacks sep p hp)

All-Lacks-prepend :
    (sep c : ℕ) (parts : List Text)
    → eqb c sep ≡ false
    → All (Lacks sep) parts
    → All (Lacks sep) (prepend c parts)
All-Lacks-prepend sep c [] miss h = ((miss, tt), tt)
All-Lacks-prepend sep c (part ∷ parts) miss (hp, hps) = ((miss, hp), hps)

words_from-append :
    (w rest word : Text)
    → All (λ c. is_whitespace c ≡ false) w
    → words_from (w ++ rest) word ≡ words_from rest (word ++ w)
unfolding words_from
words_from-append [] rest word h = rw append-nil
words_from-append (c ∷ w) rest word (hc, hw) =
    rw (hc, words_from) (rw (words_from-append w rest _ hw, append_assoc))

words_from-spaced :
    (ws : List Text) (word : Text)
    → word ≢ []
    → All IsWord ws
    → words_from (spaced ws) word ≡ word ∷ ws
unfolding words_from spaced is_whitespace
words_from-spaced [] [] ne h = absurd (ne refl)
words_from-spaced [] (c ∷ word) ne h = refl
words_from-spaced (w ∷ ws) [] ne h = absurd (ne refl)
words_from-spaced (w ∷ ws) (c ∷ word) ne ((hw, no_space), hws) =
    rw (words_from-append w (spaced ws) [] no_space, words_from-spaced ws w hw hws)

-- A command that is written as words with one space between two is split into these words.
pub split_whitespace-spaced :
    (w : Text) (ws : List Text)
    → IsWord w
    → All IsWord ws
    → split_whitespace (w ++ spaced ws) ≡ w ∷ ws
unfolding split_whitespace
split_whitespace-spaced w ws (hw, no_space) h =
    rw (words_from-append w (spaced ws) [] no_space) (words_from-spaced ws w hw h)

-- No part of a split text holds the separator.
pub All-Lacks-split : (sep : ℕ) (s : Text) → All (Lacks sep) (split sep s)
unfolding split
All-Lacks-split sep [] = (tt, tt)
All-Lacks-split sep (c ∷ s) = elim (Bool-cases (eqb c sep)) [
  | inl hit ↦ rw hit (tt, All-Lacks-split sep s)
  | inr miss ↦ rw miss (All-Lacks-prepend sep c (split sep s) miss (All-Lacks-split sep s))
]
