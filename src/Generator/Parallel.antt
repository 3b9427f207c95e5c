-- ===== src/Generator/Parallel.antt =====
-- `ParallelIterator::try_for_each` of `rayon`: the operations are made in any order, and once one has
-- failed the others may be left out.
use rust_quote_streamer.Base.{
  ◌≡◌, refl, ◌⊎◌, inl, inr, List, [], ◌∷◌, map, Result, Result-cases, ok, err, arith,
}

abbrev pub TryForEach : Type 0 → Type 0 → Type 0
TryForEach A E = (A → Result E (Unit {0}) × A) → List A → Result E (Unit {0}) × List A

module _ {A E : Type 0} (op : A → Result E (Unit {0}) × A) where
  -- Each item is as before, or as the operation left it.
  abbrev pub Touched : List A → List A → Type 0
  Touched [] [] = Unit {0}
  Touched [] (y ∷ ys) = ⊥
  Touched (x ∷ xs) [] = ⊥
  Touched (x ∷ xs) (y ∷ ys) = ((y ≡ x) ⊎ (y ≡ (op x).1)) × Touched xs ys

  abbrev pub Succeeds : List A → Type 0
  Succeeds [] = Unit {0}
  Succeeds (x ∷ xs) = ((op x).0 ≡ ok tt) × Succeeds xs

  abbrev pub FailsWith : E → List A → Type 0
  FailsWith e [] = ⊥
  FailsWith e (x ∷ xs) = ((op x).0 ≡ err e) ⊎ FailsWith e xs

-- What the documentation of `rayon` says of `try_for_each`.
pub record IsTryForEach {A E : Type 0} (run : TryForEach A E) : Type 0 where
  pub touched : (op : A → Result E (Unit {0}) × A) (xs : List A) → Touched op xs (run op xs).1
  pub complete :
      (op : A → Result E (Unit {0}) × A) (xs : List A)
      → (run op xs).0 ≡ ok tt
      → Succeeds op xs × ((run op xs).1 ≡ map (λ x. (op x).1) xs)
  pub no_failure :
      (op : A → Result E (Unit {0}) × A) (xs : List A) → Succeeds op xs → (run op xs).0 ≡ ok tt
  pub failure :
      (op : A → Result E (Unit {0}) × A) (xs : List A) (e : E)
      → (run op xs).0 ≡ err e
      → FailsWith op e xs

-- One thread, from the first item on: a program that the laws allow.
module _ {A E : Type 0} where
  abbrev go_on :
      A → List A → Result E (Unit {0}) → Result E (Unit {0}) × List A → Result E (Unit {0}) × List A
  go_on y xs (ok _) (result, ys) = (result, y ∷ ys)
  go_on y xs (err e) (result, ys) = (err e, y ∷ xs)

  abbrev pub in_order : TryForEach A E
  in_order op [] = (ok tt, [])
  in_order op (x ∷ xs) = go_on (op x).1 xs (op x).0 (in_order op xs)

  Touched-refl : (op : A → Result E (Unit {0}) × A) (xs : List A) → Touched op xs xs
  Touched-refl op [] = tt
  Touched-refl op (x ∷ xs) = (inl refl, Touched-refl op xs)

  in_order-Touched :
      (op : A → Result E (Unit {0}) × A) (xs : List A) → Touched op xs (in_order op xs).1
  in_order-Touched op [] = tt
  in_order-Touched op (x ∷ xs) = elim (Result-cases (op x).0) [
    | inl e ↦ rw e (inr refl, in_order-Touched op xs)
    | inr (_, e) ↦ rw e (inr refl, Touched-refl op xs)
  ]

  in_order_complete :
      (op : A → Result E (Unit {0}) × A) (xs : List A)
      → (in_order op xs).0 ≡ ok tt
      → Succeeds op xs × ((in_order op xs).1 ≡ map (λ x. (op x).1) xs)
  in_order_complete op [] h = (tt, refl)
  in_order_complete op (x ∷ xs) h = ground (arith, in_order_complete op xs)

  in_order-Succeeds :
      (op : A → Result E (Unit {0}) × A) (xs : List A) → Succeeds op xs → (in_order op xs).0 ≡ ok tt
  in_order-Succeeds op [] h = refl
  in_order-Succeeds op (x ∷ xs) (hx, hxs) = rw hx (in_order-Succeeds op xs hxs)

  in_order_fails :
      (op : A → Result E (Unit {0}) × A) (xs : List A) (e : E)
      → (in_order op xs).0 ≡ err e
      → FailsWith op e xs
  in_order_fails op [] e h = cc
  in_order_fails op (x ∷ xs) e h = elim (Result-cases (op x).0) [
    | inl good ↦ inr (in_order_fails op xs e (rw good at h))
    | inr (d, bad) ↦ inl (ground arith)
  ]

  pub in_order-IsTryForEach : IsTryForEach in_order
  in_order-IsTryForEach = record {
    touched = in_order-Touched;
    complete = in_order_complete;
    no_failure = in_order-Succeeds;
    failure = in_order_fails;
  }
