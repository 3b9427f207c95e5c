-- ===== src/HashMap.antt =====
-- `std::collections::HashMap`: an association list in the order in which the map is iterated.
-- A key that is new goes to the end.
pub mod Entries
use mathlib.Core.Option
use rust_quote_streamer.Base.{
  ◌≡◌, refl, sym, ◌∙◌, ◌≢◌, ◌⊎◌, some-eq, ◌↔◌, inl, inr, Bool, true, false, ◌||◌, Option, none,
  some, List, [], ◌∷◌, arith, Key, ◌==◌, if◌then◌else◌, Bool-cases,
}

pub beq_refl : {K : Type 0} ⦃key : Key K⦄ (k : K) → (k == k) ≡ true
beq_refl ⦃key⦄ k = (key.same_iff k k).1 refl

module _ {ℓ} {K : Type 0} {V : Type ℓ} ⦃key : Key K⦄ where
  unfoldable pub get : K → List (K × V) → Option V
  get k [] = none
  get k ((j, v) ∷ m) = if j == k then some v else get k m

  unfoldable pub insert : K → V → List (K × V) → List (K × V)
  insert k v [] = (k, v) ∷ []
  insert k v ((j, w) ∷ m) = if j == k then (k, v) ∷ m else (j, w) ∷ insert k v m

  -- Keys are distinct in a map; the recursion does not stop at the first hit.
  unfoldable pub remove : K → List (K × V) → List (K × V)
  remove k [] = []
  remove k ((j, v) ∷ m) = let rest = remove k m in if j == k then rest else (j, v) ∷ rest

  unfoldable pub contains_key : K → List (K × V) → Bool
  contains_key k [] = false
  contains_key k ((j, v) ∷ m) = j == k || contains_key k m

  pub get-insert :
      (k j : K) (v : V) (m : List (K × V))
      → get j (insert k v m) ≡ (if k == j then some v else get j m)
  unfolding get insert
  get-insert k j v [] = refl
  get-insert k j v ((i, w) ∷ m) =
      ground (arith, key.same_iff k j, key.same_iff i k, key.same_iff i j, get-insert k j v m)

  pub get-insert_self : (k : K) (v : V) (m : List (K × V)) → get k (insert k v m) ≡ some v
  get-insert_self k v m = simp (get-insert, beq_refl)

  pub get-remove :
      (k j : K) (m : List (K × V)) → get j (remove k m) ≡ (if k == j then none else get j m)
  unfolding get remove
  get-remove k j [] = ground arith
  get-remove k j ((i, w) ∷ m) =
      ground (arith, key.same_iff k j, key.same_iff i k, key.same_iff i j, get-remove k j m)

  pub get-remove_self : (k : K) (m : List (K × V)) → get k (remove k m) ≡ none
  get-remove_self k m = simp (get-remove, beq_refl)

  -- Where an entry of a map comes from after an insertion.
  pub get-insert_cases :
      (k j : K) (v w : V) (m : List (K × V))
      → get j (insert k v m) ≡ some w
      → ((k ≡ j) × (v ≡ w)) ⊎ ((k ≢ j) × (get j m ≡ some w))
  get-insert_cases k j v w m e = elim (Bool-cases (k == j)) [
    | inl hit ↦
        inl ((key.same_iff k j).0 hit, some-eq v w (rw hit at (sym (get-insert k j v m) ∙ e)))
    | inr miss ↦ inr (
      (λ same. cc (sym miss ∙ (key.same_iff k j).1 same)),
      rw miss at (sym (get-insert k j v m) ∙ e),
    )
  ]

  pub get-insert_other :
      (k j : K) (v : V) (m : List (K × V)) → k ≢ j → get j (insert k v m) ≡ get j m
  get-insert_other k j v m other = elim (Bool-cases (k == j)) [
    | inl hit ↦ absurd (other ((key.same_iff k j).0 hit))
    | inr miss ↦ get-insert k j v m ∙ rw miss
  ]

  pub get-insert_there :
      (k j : K) (v w : V) (m : List (K × V))
      → get j m ≡ some w
      → (x : V) × (get j (insert k v m) ≡ some x)
  get-insert_there k j v w m there = elim (Bool-cases (k == j)) [
    | inl hit ↦ (v, get-insert k j v m ∙ rw hit)
    | inr miss ↦ (w, get-insert k j v m ∙ rw miss there)
  ]

  pub contains_key-get : (k : K) (m : List (K × V)) → (contains_key k m ≡ false) ↔ (get k m ≡ none)
  unfolding contains_key get
  contains_key-get k [] = (λ _. refl, λ _. refl)
  contains_key-get k ((j, v) ∷ m) = ground (arith, contains_key-get k m)

  pub contains_key-insert :
      (k j : K) (v : V) (m : List (K × V))
      → contains_key j (insert k v m) ≡ (k == j || contains_key j m)
  unfolding contains_key insert
  contains_key-insert k j v [] = refl
  contains_key-insert k j v ((i, w) ∷ m) =
      ground
        (arith, key.same_iff k j, key.same_iff i k, key.same_iff i j, contains_key-insert k j v m)

-- `values_mut`: every value is replaced, the keys stay.
module _ {ℓ κ} {K : Type 0} {V : Type ℓ} {W : Type κ} (f : K → V → W) where
  unfoldable pub map_values : List (K × V) → List (K × W)
  map_values [] = []
  map_values ((k, v) ∷ m) = (k, f k v) ∷ map_values m

module _ {ℓ κ} {K : Type 0} {V : Type ℓ} {W : Type κ} ⦃key : Key K⦄ (f : K → V → W) where
  pub get-map_values :
      (k : K) (m : List (K × V)) → get k (map_values f m) ≡ Option.map (f k) (get k m)
  unfolding get map_values
  get-map_values k [] = refl
  get-map_values k ((j, v) ∷ m) = elim (Bool-cases (j == k)) [
    | inl hit ↦ rw (hit, (key.same_iff j k).0 hit)
    | inr miss ↦ rw miss (get-map_values k m)
  ]
