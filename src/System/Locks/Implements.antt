-- ===== src/System/Locks/Implements.antt =====
-- The calls of the registry of src/quote_server.rs, each of which is one step of the detailed model,
-- are runs of the smaller steps at the locks.
use mathlib.Core.Option
use rust_quote_streamer.Base.{
  ℕ, ◌+◌, ◌≡◌, refl, sym, subst, ◌∙◌, ◌⊎◌, inl, inr, Bool, true, false, List, [], ◌∷◌, ◌++◌, Option,
  none, some, eqb, eqb_iff, nat_key, arith, Option-cases, Bool-cases, if◌then◌else◌,
}
use rust_quote_streamer.HashMap.{get, insert, get-insert_self}
use rust_quote_streamer.Text.{Text}
use rust_quote_streamer.Platform.{Platform}
use rust_quote_streamer.Client.{Client}
use rust_quote_streamer.Client.Thread.{shutdown, Callback}
use rust_quote_streamer.Server.Registry.Valid.{new_client, told}
use rust_quote_streamer.Server.Registry.Refines.{put}
use rust_quote_streamer.System.Locks.Defs.{
  adds, removes, notifies, Place, idle, at_lock, in_add, in_remove, joining, in_notify, at_recv,
  over, Thread, Locks, push, contains, without, move, unlock, insert_client, take_client, lock,
  adding, missing, removing, joined, Call, Reachable,
}
use rust_quote_streamer.System.Locks.Walk.{Walked, go_on, call_on}
use rust_quote_streamer.System.Locks.Ending.{HasThread-contains, has_shutdown-last}
use rust_quote_streamer.System.Locks.Invariant.{Reachable-IsHeld}
use rust_quote_streamer.System.Locks.Sets.{
  contains-without, IsDistinct-without, get-tell_other, get-tell_self,
}
use rust_quote_streamer.System.Locks.Agrees.{
  IsIdle, stage_of, thread_of, Agrees, Drained, drains, notifies_all,
}
use rust_quote_streamer.System.Locks.Kept.{tells-Agrees, adds-Agrees, removes-Agrees}

-- The number of the next client is that of none.
new_number : (l : Locks) → Reachable l → contains l.clients_count l.clients ≡ false
new_number l r =
    let h = Reachable-IsHeld r in
    elim (Bool-cases (contains l.clients_count l.clients)) [
      | inr out ↦ out
      | inl there ↦
          let (t, found) = HasThread-contains l.threads l.clients_count l.clients h.known there in
          let small = h.below l.clients_count t found in absurd (omega arith)
    ]

-- A caller takes the free mutex for a call.
abbrev locked : Locks → ℕ → Place → Place → Locks
locked l c wait place = record (move (move l c wait) c place) { clients_guard = some c }

locked-caller :
    (l : Locks) (c : ℕ) (wait place : Place) → get c (locked l c wait place).callers ≡ some place
locked-caller l c wait place = get-insert_self c place (insert c wait l.callers)

module _ (p : Platform) where
  -- A state that a walk with the calls leads to, and that agrees again.
  abbrev pub Simulated : ℕ → Locks → List Call → (ℕ → Option (Client p)) → ℕ → Type 0
  Simulated c o made f next = (l : Locks) × Walked c o made l × IsIdle c l × Agrees p f next l

  module _ (c : ℕ) (o : Locks) (made : List Call) (f : ℕ → Option (Client p)) (next : ℕ) (l : Locks)
      (r : Walked c o made l) (free : IsIdle c l) (agrees : Agrees p f next l) where
    pub adds-Simulated :
        (tickers : List Text) (callback : Callback p)
        → Simulated c o
            (made ++ adds ∷ [])
            (put p next (some (new_client p tickers callback)) f)
            (next + 1)
    adds-Simulated tickers callback =
        let held = locked l c (at_lock adds) in_add in
        let r' =
          go_on (call_on r adds free.caller)
            (lock c adds (get-insert_self c (at_lock adds) l.callers) free.clients_free) in
        let same = subst (λ n. Agrees p f n l) (sym agrees.count) agrees in
        subst
          (λ n.
            Simulated c o (made ++ adds ∷ []) (put p n (some (new_client p tickers callback)) f)
              (n + 1))
          agrees.count
          (
            insert_client held c,
            go_on r' (adding c (locked-caller l c (at_lock adds) in_add)),
            record {
              clients_free = refl;
              quotes_free = free.quotes_free;
              caller = get-insert_self c idle held.callers;
            },
            adds-Agrees p f l same (insert c idle held.callers) (new_number l r.0) tickers callback,
          )

    pub notifies-Simulated :
        Simulated c o (made ++ notifies ∷ []) (λ id. Option.map (told p) (f id)) next
    notifies-Simulated =
        let held = locked l c (at_lock notifies) (in_notify l.clients) in
        let r' =
          go_on (call_on r notifies free.caller)
            (lock c notifies (get-insert_self c (at_lock notifies) l.callers) free.clients_free) in
        let (callers, r'', idle_again) =
          notifies_all held c l.clients r'
            (locked-caller l c (at_lock notifies) (in_notify l.clients)) in
        (
          _,
          r'',
          record { clients_free = refl; quotes_free = free.quotes_free; caller = idle_again },
          tells-Agrees p f next l agrees callers,
        )

    removes_missing :
        (id : ℕ)
        → contains id l.clients ≡ false
        → Simulated c o (made ++ removes id ∷ []) (put p id none f) next
    removes_missing id gone =
        let held = locked l c (at_lock (removes id)) (in_remove id) in
        let r' = go_on (call_on r (removes id) free.caller) (
          lock c (removes id) (get-insert_self c (at_lock (removes id)) l.callers)
            free.clients_free) in
        (
          unlock held c,
          go_on r' (missing c id (locked-caller l c (at_lock (removes id)) (in_remove id)) gone),
          record {
            clients_free = refl;
            quotes_free = free.quotes_free;
            caller = get-insert_self c idle held.callers;
          },
          removes-Agrees p f next l id (insert c idle held.callers) l.threads l.clients agrees
              (λ j other. refl) same agrees.distinct,
        )
      where
        same : (j : ℕ) → contains j l.clients ≡ (if eqb id j then false else contains j l.clients)
        same j = elim (Bool-cases (eqb id j)) [
          | inl hit ↦
              subst (λ i. contains i l.clients ≡ false) ((eqb_iff id j).0 hit) gone ∙ rw hit refl
          | inr miss ↦ rw miss refl
        ]

    -- The client is taken out, and the caller waits for its thread.
    abbrev taken : ℕ → Locks
    taken id = take_client (locked l c (at_lock (removes id)) (in_remove id)) c id

    taken-Reachable :
        (id : ℕ) → contains id l.clients ≡ true → Walked c o (made ++ removes id ∷ []) (taken id)
    taken-Reachable id there =
        let r' = go_on (call_on r (removes id) free.caller) (
          lock c (removes id) (get-insert_self c (at_lock (removes id)) l.callers)
            free.clients_free) in
        go_on r' (removing c id (locked-caller l c (at_lock (removes id)) (in_remove id)) there)

    -- Its thread ends.
    taken-Drained :
        (id : ℕ) (t : Thread)
        → contains id l.clients ≡ true
        → get id l.threads ≡ some t
        → (t.stage ≡ at_recv) ⊎ (t.stage ≡ over)
        → Drained c o (made ++ removes id ∷ []) (taken id) id
    taken-Drained id t there found (inl waits) =
        drains (taken id) id (t.queue ++ shutdown ∷ []) (taken-Reachable id there) free.quotes_free
          (get-tell_self id shutdown l.threads t found ∙ rw waits refl) (has_shutdown-last t.queue)
    taken-Drained id t there found (inr ended) = record {
      threads = (taken id).threads;
      reach = taken-Reachable id there;
      last = push shutdown t;
      found = get-tell_self id shutdown l.threads t found;
      ended = ended;
      others = λ j other. refl;
    }

    removes_there :
        (id : ℕ)
        → contains id l.clients ≡ true
        → Drained c o (made ++ removes id ∷ []) (taken id) id
        → Simulated c o (made ++ removes id ∷ []) (put p id none f) next
    removes_there id there d =
        let done : Locks = record (taken id) { threads = d.threads } in
        (
          unlock done c,
          go_on d.reach (joined c id d.last (get-insert_self c (joining id) _) d.found d.ended),
          record {
            clients_free = refl;
            quotes_free = free.quotes_free;
            caller = get-insert_self c idle done.callers;
          },
          removes-Agrees p f next l id (insert c idle done.callers) d.threads (without id l.clients)
              agrees (λ j other. d.others j other ∙ get-tell_other id j shutdown l.threads other)
              (λ j. contains-without j id l.clients)
              (IsDistinct-without id l.clients agrees.distinct),
        )

    pub removes-Simulated :
        (id : ℕ) → Simulated c o (made ++ removes id ∷ []) (put p id none f) next
    removes-Simulated id = elim (Bool-cases (contains id l.clients)) [
      | inr gone ↦ removes_missing id gone
      | inl there ↦ elim (Option-cases (f id)) [
        | inl e ↦ absurd (both_ways (agrees.gone id e) there)
        | inr (client, e) ↦
            let (_, runs) = agrees.there id client e in
            removes_there id there (
              taken-Drained id (thread_of p runs.worker) there runs.thread
                (waits runs.worker.running))
      ]
    ]
      where
        both_ways : {b : Bool} → b ≡ false → b ≡ true → ⊥
        both_ways x y = cc

        waits : (b : Bool) → (stage_of b ≡ at_recv) ⊎ (stage_of b ≡ over)
        waits true = inl refl
        waits false = inr refl
