-- ===== src/System/Locks/Search.antt =====
-- A search through all entries of a map.
use rust_quote_streamer.Base.{
  ℕ, ◌≡◌, sym, subst, ◌∙◌, ◌⊎◌, inl, inr, List, [], ◌∷◌, some, some-eq, ◌==◌, eqb_iff, nat_key,
  Option-cases, Bool-cases,
}
use rust_quote_streamer.HashMap.{get}

-- A test that succeeds at all entries, or finds one at which it does not.
module _ {V : Type 0} {Bad : Type 0} {Good : V → Type 0} (m : List (ℕ × V))
    (test : (k : ℕ) (v : V) → get k m ≡ some v → Good v ⊎ Bad) where
  abbrev GoodAt : ℕ → Type 0
  GoodAt k = (v : V) → get k m ≡ some v → Good v

  test_at : (k : ℕ) → GoodAt k ⊎ Bad
  test_at k = elim (Option-cases (get k m)) [
    | inl e ↦ inl (λ v found. cc)
    | inr (v, e) ↦ elim (test k v e) [
      | inl good ↦ inl (λ u found. subst Good (some-eq v u (sym e ∙ found)) good)
      | inr bad ↦ inr bad
    ]
  ]

  all_keys : (keys : List (ℕ × V)) → ((k : ℕ) (v : V) → get k keys ≡ some v → GoodAt k) ⊎ Bad
  unfolding get
  all_keys [] = inl (λ k v e. cc)
  all_keys ((j, x) ∷ keys) = elim (test_at j) [
    | inr bad ↦ inr bad
    | inl good ↦ elim (all_keys keys) [
      | inr bad ↦ inr bad
      | inl rest ↦ inl (λ k v found. elim (Bool-cases (j == k)) [
        | inl hit ↦ subst GoodAt ((eqb_iff j k).0 hit) good
        | inr miss ↦ rest k v (rw miss at found)
      ])
    ]
  ]

  pub all_or_one : ((k : ℕ) (v : V) → get k m ≡ some v → Good v) ⊎ Bad
  all_or_one = elim (all_keys m) [
    | inl good ↦ inl (λ k v found. good k v found v found)
    | inr bad ↦ inr bad
  ]
