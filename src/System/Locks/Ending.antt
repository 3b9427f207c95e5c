-- ===== src/System/Locks/Ending.antt =====
-- A thread of src/client.rs that is told to shut down ends.
use rust_quote_streamer.Base.{
  ℕ, ◌<◌, ◌≡◌, ◌≢◌, refl, sym, subst, ◌∙◌, ◌⊎◌, inl, inr, Bool, true, false, List, [], ◌∷◌, ◌++◌,
  none, some, some-eq, eqb, eqb_iff, All, nat_key, arith, Option-cases, Bool-cases,
}
use rust_quote_streamer.HashMap.{get, insert, get-insert_self, get-insert_cases, get-insert_other}
use rust_quote_streamer.Client.Thread.{ClientCommand, update, shutdown}
use rust_quote_streamer.System.Locks.Defs.{
  Place, joining, Stage, at_recv, at_read, in_read, over, Thread, push_at, push, tell, contains,
  without,
}

abbrev pub has_shutdown : List ClientCommand → Bool
has_shutdown [] = false
has_shutdown (update ∷ queue) = has_shutdown queue
has_shutdown (shutdown ∷ queue) = true

-- The thread has ended, or a `Shutdown` is in its channel.
abbrev pub Ends : Thread → Type 0
Ends t = (t.stage ≡ over) ⊎ (has_shutdown t.queue ≡ true)

abbrev pub EndsAt : List (ℕ × Thread) → ℕ → Type 0
EndsAt threads id = (t : Thread) × (get id threads ≡ some t) × Ends t

abbrev pub HasThread : List (ℕ × Thread) → ℕ → Type 0
HasThread threads id = (t : Thread) × (get id threads ≡ some t)

-- No thread is gone later, and one that ends still does.
abbrev pub Later : List (ℕ × Thread) → List (ℕ × Thread) → Type 0
Later threads threads' =
    (id : ℕ) (t : Thread)
    → get id threads ≡ some t
    → (t' : Thread) × (get id threads' ≡ some t') × (Ends t → Ends t')

pub Later-refl : (threads : List (ℕ × Thread)) → Later threads threads
Later-refl threads id t found = (t, found, λ e. e)

pub Later-insert :
    (id : ℕ) (t' : Thread) (threads : List (ℕ × Thread))
    → ((t : Thread) → get id threads ≡ some t → Ends t → Ends t')
    → Later threads (insert id t' threads)
Later-insert id t' threads step j t found = elim (Bool-cases (eqb id j)) [
  | inl hit ↦
      let e = (eqb_iff id j).0 hit in
      (
        t',
        subst (λ i. get i (insert id t' threads) ≡ some t') e (get-insert_self id t' threads),
        step t (subst (λ i. get i threads ≡ some t) (sym e) found),
      )
  | inr miss ↦
      let other : id ≢ j = λ e. let hit = (eqb_iff id j).1 e in cc in
      (t, get-insert_other id j t' threads other ∙ found, λ e. e)
]

has_shutdown-append :
    (queue : List ClientCommand) (command : ClientCommand)
    → has_shutdown queue ≡ true
    → has_shutdown (queue ++ command ∷ []) ≡ true
has_shutdown-append [] command h = cc
has_shutdown-append (update ∷ queue) command h = has_shutdown-append queue command h
has_shutdown-append (shutdown ∷ queue) command h = refl

pub has_shutdown-last : (queue : List ClientCommand) → has_shutdown (queue ++ shutdown ∷ []) ≡ true
has_shutdown-last [] = refl
has_shutdown-last (update ∷ queue) = has_shutdown-last queue
has_shutdown-last (shutdown ∷ queue) = refl

push_at-Ends :
    (stage : Stage) (command : ClientCommand) (queue : List ClientCommand)
    → Ends (record { queue = queue; stage = stage })
    → Ends (record { queue = push_at stage command queue; stage = stage })
push_at-Ends over command queue e = e
push_at-Ends at_recv command queue (inl e) = inl e
push_at-Ends at_recv command queue (inr e) = inr (has_shutdown-append queue command e)
push_at-Ends at_read command queue (inl e) = inl e
push_at-Ends at_read command queue (inr e) = inr (has_shutdown-append queue command e)
push_at-Ends in_read command queue (inl e) = inl e
push_at-Ends in_read command queue (inr e) = inr (has_shutdown-append queue command e)

push_at-shutdown :
    (stage : Stage) (queue : List ClientCommand)
    → Ends (record { queue = push_at stage shutdown queue; stage = stage })
push_at-shutdown over queue = inl refl
push_at-shutdown at_recv queue = inr (has_shutdown-last queue)
push_at-shutdown at_read queue = inr (has_shutdown-last queue)
push_at-shutdown in_read queue = inr (has_shutdown-last queue)

pub tell-Later :
    (id : ℕ) (command : ClientCommand) (threads : List (ℕ × Thread))
    → Later threads (tell id command threads)
unfolding tell
tell-Later id command threads = elim (Option-cases (get id threads)) [
  | inl e ↦ rw e (Later-refl threads)
  | inr (t, e) ↦ rw e (
      Later-insert id (push command t) threads (λ u found ends.
        push_at-Ends t.stage command t.queue (subst Ends (some-eq u t (sym found ∙ e)) ends)))
]

-- A thread that is told to shut down ends.
pub tell-EndsAt :
    (id : ℕ) (threads : List (ℕ × Thread))
    → HasThread threads id
    → EndsAt (tell id shutdown threads) id
unfolding tell
tell-EndsAt id threads (t, e) = rw e (
  push shutdown t,
  get-insert_self id (push shutdown t) threads,
  push_at-shutdown t.stage t.queue,
)

pub EndsAt-Later :
    (threads threads' : List (ℕ × Thread)) (id : ℕ)
    → Later threads threads'
    → EndsAt threads id
    → EndsAt threads' id
EndsAt-Later threads threads' id later (t, found, ends) =
    let (t', found', step) = later id t found in (t', found', step ends)

pub HasThread-Later :
    (threads threads' : List (ℕ × Thread)) (ids : List ℕ)
    → Later threads threads'
    → All (HasThread threads) ids
    → All (HasThread threads') ids
HasThread-Later threads threads' [] later h = tt
HasThread-Later threads threads' (id ∷ ids) later ((t, found), rest) =
    let (t', found', step) = later id t found in
    ((t', found'), HasThread-Later threads threads' ids later rest)

pub HasThread-without :
    (threads : List (ℕ × Thread)) (id : ℕ) (ids : List ℕ)
    → All (HasThread threads) ids
    → All (HasThread threads) (without id ids)
unfolding without
HasThread-without threads id [] h = tt
HasThread-without threads id (j ∷ ids) (h, rest) = elim (Bool-cases (eqb j id)) [
  | inl hit ↦ rw hit (HasThread-without threads id ids rest)
  | inr miss ↦ rw miss (h, HasThread-without threads id ids rest)
]

pub HasThread-contains :
    (threads : List (ℕ × Thread)) (id : ℕ) (ids : List ℕ)
    → All (HasThread threads) ids
    → contains id ids ≡ true
    → HasThread threads id
unfolding contains
HasThread-contains threads id [] h there = cc
HasThread-contains threads id (j ∷ ids) (h, rest) there = elim (Bool-cases (eqb j id)) [
  | inl hit ↦ subst (HasThread threads) ((eqb_iff j id).0 hit) h
  | inr miss ↦ HasThread-contains threads id ids rest (rw miss at there)
]

-- The numbers of the threads are below the count.
abbrev pub Below : ℕ → List (ℕ × Thread) → Type 0
Below n threads = (id : ℕ) (t : Thread) → get id threads ≡ some t → id < n

-- The count is the number of no thread yet.
pub Below-new : (n : ℕ) (threads : List (ℕ × Thread)) → Below n threads → get n threads ≡ none
Below-new n threads below = elim (Option-cases (get n threads)) [
  | inl e ↦ e
  | inr (t, e) ↦ let small = below n t e in absurd (omega arith)
]

pub Below-insert :
    (n id : ℕ) (t : Thread) (threads : List (ℕ × Thread))
    → id < n
    → Below n threads
    → Below n (insert id t threads)
Below-insert n id t threads small below j u found = elim (get-insert_cases id j t u threads found) [
  | inl (e, _) ↦ omega arith
  | inr (_, before) ↦ below j u before
]

pub Below-tell :
    (n id : ℕ) (command : ClientCommand) (threads : List (ℕ × Thread))
    → Below n threads
    → Below n (tell id command threads)
unfolding tell
Below-tell n id command threads below = elim (Option-cases (get id threads)) [
  | inl e ↦ rw e below
  | inr (t, e) ↦ rw e (Below-insert n id (push command t) threads (below id t e) below)
]

-- A caller that waits for the end of a thread waits for one that ends.
abbrev pub Joins : List (ℕ × Place) → List (ℕ × Thread) → Type 0
Joins callers threads = (c id : ℕ) → get c callers ≡ some (joining id) → EndsAt threads id

pub Joins-insert :
    (callers : List (ℕ × Place)) (threads threads' : List (ℕ × Thread)) (c : ℕ) (place : Place)
    → Later threads threads'
    → ((id : ℕ) → place ≡ joining id → EndsAt threads' id)
    → Joins callers threads
    → Joins (insert c place callers) threads'
Joins-insert callers threads threads' c place later at_place joins d id found =
    elim (get-insert_cases c d place (joining id) callers found) [
      | inl (_, e) ↦ at_place id e
      | inr (_, before) ↦ EndsAt-Later threads threads' id later (joins d id before)
    ]

pub Joins-Later :
    (callers : List (ℕ × Place)) (threads threads' : List (ℕ × Thread))
    → Later threads threads'
    → Joins callers threads
    → Joins callers threads'
Joins-Later callers threads threads' later joins d id found =
    EndsAt-Later threads threads' id later (joins d id found)
