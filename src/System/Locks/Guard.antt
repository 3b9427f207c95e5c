-- ===== src/System/Locks/Guard.antt =====
-- A guard and the places at which a caller of src/quote_server.rs holds it.
use rust_quote_streamer.Base.{
  ℕ, ◌≡◌, ◌≢◌, sym, ap, subst, ◌∙◌, inl, inr, Bool, true, false, List, Option, none, some, some-eq,
  nat_key,
}
use rust_quote_streamer.HashMap.{get, insert, get-insert_self, get-insert_cases, get-insert_other}
use rust_quote_streamer.System.Locks.Defs.{Place}

-- The guard names a caller exactly if the caller is at such a place.
pub record Guards (holds : Place → Bool) (guard : Option ℕ) (callers : List (ℕ × Place))
    : Type 0 where
  pub of :
      (c : ℕ) (place : Place) → get c callers ≡ some place → holds place ≡ true → guard ≡ some c
  pub names :
      (c : ℕ)
      → guard ≡ some c
      → (place : Place) × (get c callers ≡ some place) × (holds place ≡ true)

module _ (holds : Place → Bool) (callers : List (ℕ × Place)) where
  -- The caller does not hold the guard so far, if it is there.
  abbrev pub IsOutside : ℕ → Type 0
  IsOutside c = (place : Place) → get c callers ≡ some place → holds place ≡ false

  pub IsOutside-at :
      (c : ℕ) (place : Place) → get c callers ≡ some place → holds place ≡ false → IsOutside c
  IsOutside-at c place found out other found' = cc

  pub Guards-outside :
      (guard : Option ℕ) (c : ℕ) (place : Place)
      → IsOutside c
      → holds place ≡ false
      → Guards holds guard callers
      → Guards holds guard (insert c place callers)
  Guards-outside guard c place out stays g = record {
    of = λ d x found inside. elim (get-insert_cases c d place x callers found) [
      | inl (_, same) ↦ cc
      | inr (_, before) ↦ g.of d x before inside
    ];
    names = λ d held.
        let (x, found, inside) = g.names d held in
        let other : c ≢ d = λ e. cc (out x (ap_get e found)) in
        (x, get-insert_other c d place callers other ∙ found, inside);
  }
    where
      ap_get : {c d : ℕ} {x : Place} → c ≡ d → get d callers ≡ some x → get c callers ≡ some x
      ap_get e found = cc

  pub Guards-taken :
      (c : ℕ) (place : Place)
      → holds place ≡ true
      → Guards holds none callers
      → Guards holds (some c) (insert c place callers)
  Guards-taken c place inside g = record {
    of = λ d x found holds_x. elim (get-insert_cases c d place x callers found) [
      | inl (e, _) ↦ cc
      | inr (_, before) ↦ absurd (none_some (g.of d x before holds_x))
    ];
    names = λ d held. (place, at_self (some-eq c d held), inside);
  }
    where
      none_some : {d : ℕ} → ◌≡◌ {A = Option ℕ} none (some d) → ⊥
      none_some e = cc

      at_self : {d : ℕ} → c ≡ d → get d (insert c place callers) ≡ some place
      at_self e =
          subst (λ d. get d (insert c place callers) ≡ some place) e
            (get-insert_self c place callers)

  pub Guards-kept :
      (guard : Option ℕ) (c : ℕ) (old place : Place)
      → get c callers ≡ some old
      → holds old ≡ true
      → holds place ≡ true
      → Guards holds guard callers
      → Guards holds guard (insert c place callers)
  Guards-kept guard c old place found held stays g = record {
    of = λ d x found' inside. elim (get-insert_cases c d place x callers found') [
      | inl (e, _) ↦ g.of c old found held ∙ ap some e
      | inr (_, before) ↦ g.of d x before inside
    ];
    names = λ d names_d.
        let e : c ≡ d = some-eq c d (sym (g.of c old found held) ∙ names_d) in
        (
          place,
          subst (λ d. get d (insert c place callers) ≡ some place) e
              (get-insert_self c place callers),
          stays,
        );
  }

  pub Guards-released :
      (guard : Option ℕ) (c : ℕ) (old place : Place)
      → get c callers ≡ some old
      → holds old ≡ true
      → holds place ≡ false
      → Guards holds guard callers
      → Guards holds none (insert c place callers)
  Guards-released guard c old place found held leaves g = record {
    of = λ d x found' inside. elim (get-insert_cases c d place x callers found') [
      | inl (_, e) ↦ cc
      | inr (other, before) ↦
          absurd (other (some-eq c d (sym (g.of c old found held) ∙ g.of d x before inside)))
    ];
    names = λ d none_d. cc;
  }
