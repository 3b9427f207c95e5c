-- ===== src/HashMap/Entries.antt =====
-- A property of all entries of a map, under the operations of the map.
use rust_quote_streamer.Base.{◌≡◌, subst, some, List, [], ◌∷◌, inl, inr, Key, ◌==◌, Bool-cases}
use rust_quote_streamer.HashMap.{get, insert, remove, map_values}

module _ {ℓ κ} {K : Type 0} {V : Type ℓ} (P : K → V → Type κ) where
  abbrev pub Entries : List (K × V) → Type κ
  Entries [] = Unit
  Entries ((k, v) ∷ m) = P k v × Entries m

module _ {ℓ κ μ} {K : Type 0} {V : Type ℓ} {P : K → V → Type κ} {Q : K → V → Type μ} where
  pub Entries_mono :
      ((k : K) (v : V) → P k v → Q k v) → (m : List (K × V)) → Entries P m → Entries Q m
  Entries_mono step [] h = tt
  Entries_mono step ((k, v) ∷ m) (hk, hs) = (step k v hk, Entries_mono step m hs)

-- A map has one value for each key: the one that is found.
abbrev pub IsMap {ℓ} : {K : Type 0} {V : Type ℓ} ⦃key : Key K⦄ → List (K × V) → Type ℓ
IsMap m = Entries (λ k v. get k m ≡ some v) m

module _ {ℓ κ} {K : Type 0} {V : Type ℓ} ⦃key : Key K⦄ (P : K → V → Type κ) where
  pub Entries-insert :
      (k : K) (v : V) (m : List (K × V)) → P k v → Entries P m → Entries P (insert k v m)
  unfolding insert
  Entries-insert k v [] h hs = (h, tt)
  Entries-insert k v ((j, w) ∷ m) h (hj, hs) = elim (Bool-cases (j == k)) [
    | inl hit ↦ rw hit (h, hs)
    | inr miss ↦ rw miss (hj, Entries-insert k v m h hs)
  ]

  pub Entries-remove : (k : K) (m : List (K × V)) → Entries P m → Entries P (remove k m)
  unfolding remove
  Entries-remove k [] h = h
  Entries-remove k ((j, w) ∷ m) (hj, hs) = elim (Bool-cases (j == k)) [
    | inl hit ↦ rw hit (Entries-remove k m hs)
    | inr miss ↦ rw miss (hj, Entries-remove k m hs)
  ]

  pub Entries-get : (k : K) (v : V) (m : List (K × V)) → Entries P m → get k m ≡ some v → P k v
  unfolding get
  Entries-get k v [] h found = cc
  Entries-get k v ((j, w) ∷ m) (hj, hs) found = elim (Bool-cases (j == k)) [
    | inl hit ↦
        let at_k : P k w = subst (λ i. P i w) ((key.same_iff j k).0 hit) hj in
        subst (P k) (some_eq w v (rw hit at found)) at_k
    | inr miss ↦ Entries-get k v m hs (rw miss at found)
  ]
    where
      some_eq : (a b : V) → some a ≡ some b → a ≡ b
      some_eq a b q = cc

-- The keys of a map, in the order of the entries.
module _ {ℓ κ} {K : Type 0} {V : Type ℓ} {W : Type κ} (f : K → V → W) where
  pub Entries-map_values {μ ν} :
      (P : K → V → Type μ) (Q : K → W → Type ν)
      → ((k : K) (v : V) → P k v → Q k (f k v))
      → (m : List (K × V)) → Entries P m
      → Entries Q (map_values f m)
  unfolding map_values
  Entries-map_values P Q step [] h = tt
  Entries-map_values P Q step ((k, v) ∷ m) (hk, hs) =
      (step k v hk, Entries-map_values P Q step m hs)
