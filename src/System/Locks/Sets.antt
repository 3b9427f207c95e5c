-- ===== src/System/Locks/Sets.antt =====
-- The numbers of the clients of src/quote_server.rs as a list without repetition, and what is sent to
-- their threads.
use rust_quote_streamer.Base.{
  ℕ, ◌≡◌, ◌≢◌, refl, sym, subst, ◌∙◌, inl, inr, ◌||◌, true, false, List, [], ◌∷◌, ◌++◌, some, eqb,
  eqb_iff, nat_key, arith, Option-cases, Bool-cases, if◌then◌else◌,
}
use rust_quote_streamer.HashMap.{get, get-insert_self, get-insert_other}
use rust_quote_streamer.Client.Thread.{ClientCommand, update}
use rust_quote_streamer.System.Locks.Defs.{Thread, push, tell, contains, without}

pub eqb_neq : (i j : ℕ) → i ≢ j → eqb i j ≡ false
eqb_neq i j other = elim (Bool-cases (eqb i j)) [
  | inl hit ↦ absurd (other ((eqb_iff i j).0 hit))
  | inr miss ↦ miss
]

-- No number stands twice.
abbrev pub IsDistinct : List ℕ → Type 0
IsDistinct [] = Unit {0}
IsDistinct (id ∷ ids) = (contains id ids ≡ false) × IsDistinct ids

pub contains-last :
    (j id : ℕ) (ids : List ℕ) → contains j (ids ++ id ∷ []) ≡ (contains j ids || eqb id j)
unfolding contains
contains-last j id [] = ground arith
contains-last j id (i ∷ ids) = ground (arith, contains-last j id ids)

pub contains-without :
    (j id : ℕ) (ids : List ℕ)
    → contains j (without id ids) ≡ (if eqb id j then false else contains j ids)
unfolding contains without
contains-without j id [] = ground arith
contains-without j id (i ∷ ids) = ground (arith, contains-without j id ids)

pub IsDistinct-last :
    (id : ℕ) (ids : List ℕ) → contains id ids ≡ false → IsDistinct ids → IsDistinct (ids ++ id ∷ [])
unfolding contains
IsDistinct-last id [] new h = (refl, tt)
IsDistinct-last id (i ∷ ids) new (h, hs) =
    (contains-last i id ids ∙ ground arith, IsDistinct-last id ids (ground arith) hs)

pub IsDistinct-without : (id : ℕ) (ids : List ℕ) → IsDistinct ids → IsDistinct (without id ids)
unfolding without
IsDistinct-without id [] h = tt
IsDistinct-without id (i ∷ ids) (h, hs) = elim (Bool-cases (eqb i id)) [
  | inl hit ↦ rw hit (IsDistinct-without id ids hs)
  | inr miss ↦ rw miss (contains-without i id ids ∙ ground arith, IsDistinct-without id ids hs)
]

pub get-tell_other :
    (id j : ℕ) (command : ClientCommand) (threads : List (ℕ × Thread))
    → id ≢ j
    → get j (tell id command threads) ≡ get j threads
unfolding tell
get-tell_other id j command threads other = elim (Option-cases (get id threads)) [
  | inl e ↦ rw e refl
  | inr (t, e) ↦ rw e (get-insert_other id j (push command t) threads other)
]

pub get-tell_self :
    (id : ℕ) (command : ClientCommand) (threads : List (ℕ × Thread)) (t : Thread)
    → get id threads ≡ some t
    → get id (tell id command threads) ≡ some (push command t)
unfolding tell
get-tell_self id command threads t found = rw found (get-insert_self id (push command t) threads)

-- An `Update` for each.
abbrev pub tell_all : List ℕ → List (ℕ × Thread) → List (ℕ × Thread)
tell_all [] threads = threads
tell_all (id ∷ ids) threads = tell_all ids (tell id update threads)

pub get-tell_all_other :
    (ids : List ℕ) (j : ℕ) (threads : List (ℕ × Thread))
    → contains j ids ≡ false
    → get j (tell_all ids threads) ≡ get j threads
unfolding contains
get-tell_all_other [] j threads out = refl
get-tell_all_other (id ∷ ids) j threads out =
    get-tell_all_other ids j (tell id update threads) (ground arith)
    ∙ get-tell_other id j update threads (ground arith)

pub get-tell_all :
    (ids : List ℕ) (j : ℕ) (threads : List (ℕ × Thread)) (t : Thread)
    → IsDistinct ids
    → contains j ids ≡ true
    → get j threads ≡ some t
    → get j (tell_all ids threads) ≡ some (push update t)
unfolding contains
get-tell_all [] j threads t distinct there found = cc
get-tell_all (id ∷ ids) j threads t (new, distinct) there found = elim (Bool-cases (eqb id j)) [
  | inl hit ↦
      let e = (eqb_iff id j).0 hit in
      get-tell_all_other ids j (tell id update threads) (subst (λ i. contains i ids ≡ false) e new)
      ∙ subst (λ i. get i (tell id update threads) ≡ some (push update t)) e
          (get-tell_self id update threads t (subst (λ i. get i threads ≡ some t) (sym e) found))
  | inr miss ↦
      get-tell_all ids j (tell id update threads) t distinct (rw miss at there)
        (get-tell_other id j update threads (λ e. let hit = (eqb_iff id j).1 e in cc) ∙ found)
]
