-- ===== src/System/Locks/Progress.antt =====
-- The locks of src/quote_server.rs and the channels of src/client.rs never block each other for ever.
use rust_quote_streamer.Base.{
  ℕ, ◌+◌, ◌≤◌, ◌≡◌, refl, subst, ◌⊎◌, inl, inr, Bool, true, false, List, [], ◌∷◌, Option, none,
  some, ap, nat_key, arith, Option-cases, Bool-cases,
}
use rust_quote_streamer.HashMap.{get}
use rust_quote_streamer.Client.Thread.{ClientCommand, update, shutdown}
use rust_quote_streamer.System.Locks.Defs.{
  Call, Place, idle, at_lock, in_add, in_remove, joining, in_notify, at_write, in_write, Stage,
  at_recv, at_read, in_read, over, Thread, Locks, contains, LockStep, lock, adding, missing,
  removing, joined, notifying, notified, late, written, receive_update, receive_shutdown, reading,
  processed, Reachable, Run, here, more,
}
use rust_quote_streamer.System.Locks.Guard.{Guards}
use rust_quote_streamer.System.Locks.Ending.{has_shutdown, Ends}
use rust_quote_streamer.System.Locks.Held.{IsHeld, holds_clients, writes_quotes}
use rust_quote_streamer.System.Locks.Invariant.{LockStep-IsHeld, Reachable-IsHeld}
use rust_quote_streamer.System.Locks.Search.{all_or_one}
use rust_quote_streamer.System.Locks.Work.{work, LockStep_work}

-- The thread of a client waits for a command, and there is none, or it has ended.
abbrev pub IsAtRest : Thread → Type 0
IsAtRest t = (t.stage ≡ over) ⊎ ((t.stage ≡ at_recv) × (t.queue ≡ []))

-- All calls have returned, and nothing is left in the channels.
pub record IsQuiet (s : Locks) : Type 0 where
  pub returned : (c : ℕ) (place : Place) → get c s.callers ≡ some place → place ≡ idle
  pub rest : (id : ℕ) (t : Thread) → get id s.threads ≡ some t → IsAtRest t
  pub clients_free : s.clients_guard ≡ none
  pub quotes_free : s.quotes_guard ≡ none

abbrev pub CanStep : Locks → Type 0
CanStep s = (t : Locks) × LockStep s t

module _ (s : Locks) (h : IsHeld s) where
  -- The writer is done at its next step, and holds nothing else.
  reads_or_waits :
      (id : ℕ) (queue : List ClientCommand)
      → get id s.threads ≡ some (record { queue = queue; stage = at_read })
      → CanStep s
  reads_or_waits id queue found = elim (Option-cases s.quotes_guard) [
    | inl free ↦ (_, reading id queue found free)
    | inr (c, held) ↦
        let (place, at_place, writes) = h.quotes_held.names c held in writer c place at_place writes
  ]
    where
      writer :
          (c : ℕ) (place : Place)
          → get c s.callers ≡ some place
          → writes_quotes place ≡ true
          → CanStep s
      writer c in_write e w = (_, written c e)
      writer c idle e w = cc
      writer c (at_lock call) e w = cc
      writer c in_add e w = cc
      writer c (in_remove id) e w = cc
      writer c (joining id) e w = cc
      writer c (in_notify ids) e w = cc
      writer c (at_write k) e w = cc

  thread_steps : (id : ℕ) (t : Thread) → get id s.threads ≡ some t → IsAtRest t ⊎ CanStep s
  thread_steps id t found = by_stage t.queue t.stage found
    where
      by_stage :
          (queue : List ClientCommand) (stage : Stage)
          → get id s.threads ≡ some (record { queue = queue; stage = stage })
          → IsAtRest (record { queue = queue; stage = stage }) ⊎ CanStep s
      by_stage queue over e = inl (inl refl)
      by_stage [] at_recv e = inl (inr (refl, refl))
      by_stage (update ∷ queue) at_recv e = inr (_, receive_update id queue e)
      by_stage (shutdown ∷ queue) at_recv e = inr (_, receive_shutdown id queue e)
      by_stage queue at_read e = inr (reads_or_waits id queue e)
      by_stage queue in_read e = inr (_, processed id queue e)

  -- The mutex is held while a thread ends, which does not want the mutex.
  join_steps : (c id : ℕ) → get c s.callers ≡ some (joining id) → CanStep s
  join_steps c id e =
      let (t, found, ends) = h.joins c id e in
      elim (thread_steps id t found) [
        | inr step ↦ step
        | inl rest ↦ (_, joined c id t e found (is_over t ends rest))
      ]
    where
      is_over : (t : Thread) → Ends t → IsAtRest t → t.stage ≡ over
      is_over t (inl e) rest = e
      is_over t (inr e) (inl rest) = rest
      is_over t (inr e) (inr (stage, queue)) = absurd (no_shutdown (ap has_shutdown queue) e)
        where
          no_shutdown : {b : Bool} → b ≡ false → b ≡ true → ⊥
          no_shutdown x y = cc

  holder_steps :
      (c : ℕ) (place : Place)
      → get c s.callers ≡ some place
      → holds_clients place ≡ true
      → CanStep s
  holder_steps c in_add e held = (_, adding c e)
  holder_steps c (in_remove id) e held = elim (Bool-cases (contains id s.clients)) [
    | inl there ↦ (_, removing c id e there)
    | inr gone ↦ (_, missing c id e gone)
  ]
  holder_steps c (joining id) e held = join_steps c id e
  holder_steps c (in_notify []) e held = (_, notified c e)
  holder_steps c (in_notify (id ∷ ids)) e held = (_, notifying c id ids e)
  holder_steps c idle e held = cc
  holder_steps c (at_lock call) e held = cc
  holder_steps c (at_write k) e held = cc
  holder_steps c in_write e held = cc

  lock_steps : (c : ℕ) (call : Call) → get c s.callers ≡ some (at_lock call) → CanStep s
  lock_steps c call e = elim (Option-cases s.clients_guard) [
    | inl free ↦ (_, lock c call e free)
    | inr (d, held) ↦
        let (place, at_place, holds) = h.clients_held.names d held in
        holder_steps d place at_place holds
  ]

  caller_steps : (c : ℕ) (place : Place) → get c s.callers ≡ some place → (place ≡ idle) ⊎ CanStep s
  caller_steps c idle e = inl refl
  caller_steps c (at_lock call) e = inr (lock_steps c call e)
  caller_steps c in_add e = inr (holder_steps c in_add e refl)
  caller_steps c (in_remove id) e = inr (holder_steps c (in_remove id) e refl)
  caller_steps c (joining id) e = inr (holder_steps c (joining id) e refl)
  caller_steps c (in_notify ids) e = inr (holder_steps c (in_notify ids) e refl)
  caller_steps c (at_write k) e = inr (_, late c k e)
  caller_steps c in_write e = inr (_, written c e)

  idle_free :
      (holds : Place → Bool) (guard : Option ℕ)
      → holds idle ≡ false
      → ((c : ℕ) (place : Place) → get c s.callers ≡ some place → place ≡ idle)
      → Guards holds guard s.callers
      → guard ≡ none
  idle_free holds guard out quiet g = elim (Option-cases guard) [
    | inl e ↦ e
    | inr (c, held) ↦
        let (place, found, inside) = g.names c held in
        absurd (not_held (subst (λ x. holds x ≡ true) (quiet c place found) inside))
  ]
    where
      not_held : holds idle ≡ true → ⊥
      not_held e = cc

  rests_or_steps : IsQuiet s ⊎ CanStep s
  rests_or_steps = elim (all_or_one s.callers caller_steps) [
    | inr step ↦ inr step
    | inl returned ↦ elim (all_or_one s.threads thread_steps) [
      | inr step ↦ inr step
      | inl rest ↦ inl (record {
        returned = returned;
        rest = rest;
        clients_free = idle_free holds_clients s.clients_guard refl returned h.clients_held;
        quotes_free = idle_free writes_quotes s.quotes_guard refl returned h.quotes_held;
      })
    ]
  ]

Run_work : {n : ℕ} {s t : Locks} → IsHeld s → Run n s t → (n + work t ≤ work s) × IsHeld t
Run_work h here = (omega arith, h)
Run_work h (more step run) =
    let less = LockStep_work _ _ h.below step in
    let (rest, held) = Run_work (LockStep-IsHeld _ _ h step) run in (omega arith, held)

-- In every state that can be reached, whatever the threads then do as long as nothing new begins, in
-- whatever order, they make no more steps than the work that is left; and as long as a call has not
-- returned, a lock is held, or a command waits in the channel of a thread that has not ended, some
-- thread can make a step. So there is no deadlock and no endless retry: every call returns and every
-- lock is given back.
pub locks_free :
    {s : Locks}
    → Reachable s
    → (n : ℕ) (t : Locks) → Run n s t
    → (n ≤ work s) × (IsQuiet t ⊎ CanStep t)
locks_free r n t run =
    let (bound, held) = Run_work (Reachable-IsHeld r) run in (omega arith, rests_or_steps t held)
