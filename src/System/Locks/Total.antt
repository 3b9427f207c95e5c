-- ===== src/System/Locks/Total.antt =====
-- Sums over the entries of a map.
use rust_quote_streamer.Base.{
  ℕ, ◌+◌, ◌≤◌, ◌≡◌, inl, inr, List, [], ◌∷◌, none, some, some-eq, ◌==◌, nat_key, arith, Bool-cases,
}
use rust_quote_streamer.HashMap.{get, insert}

module _ {V : Type 0} where
  abbrev pub total : (V → ℕ) → List (ℕ × V) → ℕ
  total f [] = 0
  total f ((k, v) ∷ m) = f v + total f m

  pub total-insert :
      (f : V → ℕ) (k : ℕ) (v w : V) (m : List (ℕ × V))
      → get k m ≡ some v
      → total f (insert k w m) + f v ≡ total f m + f w
  unfolding get insert
  total-insert f k v w [] found = cc
  total-insert f k v w ((j, x) ∷ m) found = elim (Bool-cases (j == k)) [
    | inl hit ↦ let same : x ≡ v = some-eq x v (rw hit at found) in rw (hit, same) (omega arith)
    | inr miss ↦ rw miss (omega (arith, total-insert f k v w m (rw miss at found)))
  ]

  pub total-insert_new :
      (f : V → ℕ) (k : ℕ) (w : V) (m : List (ℕ × V))
      → get k m ≡ none
      → total f (insert k w m) ≡ total f m + f w
  unfolding get insert
  total-insert_new f k w [] found = omega arith
  total-insert_new f k w ((j, x) ∷ m) found = elim (Bool-cases (j == k)) [
    | inl hit ↦ absurd (none_some (rw hit at found))
    | inr miss ↦ rw miss (omega (arith, total-insert_new f k w m (rw miss at found)))
  ]
    where
      none_some : some x ≡ none → ⊥
      none_some e = cc

  pub total_mono : (f g : V → ℕ) (m : List (ℕ × V)) → ((v : V) → f v ≤ g v) → total f m ≤ total g m
  total_mono f g [] h = omega arith
  total_mono f g ((k, v) ∷ m) h = omega (arith, h v, total_mono f g m h)
