-- ===== src/System/Locks/Received.antt =====
-- One command of a thread of src/client.rs, which is one step of the detailed model, as a run of the
-- smaller steps at the locks.
use rust_quote_streamer.Base.{
  ℕ, ◌≡◌, ◌≢◌, refl, sym, ap, subst, ◌∙◌, inl, inr, Bool, true, false, List, [], ◌∷◌, Option, none,
  some, some-eq, eqb, eqb_iff, nat_key, Bool-cases, if◌then◌else◌,
}
use rust_quote_streamer.HashMap.{get, insert, get-insert_self, get-insert_other}
use rust_quote_streamer.Platform.{Platform}
use rust_quote_streamer.Client.{Client}
use rust_quote_streamer.Client.Thread.{
  ClientCommand, update, shutdown, Worker, Quotes, Processed, process, call, stop, finish_update,
  on_update, on_recv,
}
use rust_quote_streamer.Server.Registry.Refines.{put}
use rust_quote_streamer.System.Locks.Defs.{
  at_recv, at_read, in_read, over, Thread, Locks, contains, move_thread, receive_update,
  receive_shutdown, reading, processed, panicked, Call,
}
use rust_quote_streamer.System.Locks.Walk.{Walked, go_on}
use rust_quote_streamer.System.Locks.Agrees.{IsIdle, thread_of, Runs, Agrees}
use rust_quote_streamer.System.Locks.Implements.{Simulated}

-- One thread is moved by steps.
record Moved (k : ℕ) (o : Locks) (made : List Call) (l : Locks) (id : ℕ) (t : Thread) : Type 0 where
  threads : List (ℕ × Thread)
  reach : Walked k o made (record l { threads = threads })
  found : get id threads ≡ some t
  others : (j : ℕ) → id ≢ j → get j threads ≡ get j l.threads

module _ {k : ℕ} {o : Locks} {made : List Call} (l : Locks) (r : Walked k o made l)
    (free : l.quotes_guard ≡ none) (id : ℕ) (queue : List ClientCommand) where
  ends-Moved :
      get id l.threads ≡ some (record { queue = shutdown ∷ queue; stage = at_recv })
      → Moved k o made l id (record { queue = []; stage = over })
  ends-Moved found = record {
    threads = insert id (record { queue = []; stage = over }) l.threads;
    reach = go_on r (receive_shutdown id queue found);
    found = get-insert_self id _ l.threads;
    others = λ j other. get-insert_other id j _ l.threads other;
  }

  -- The quotes are read, and the callback returns or panics.
  reads-Moved :
      (has_panicked : Bool)
      → get id l.threads ≡ some (record { queue = update ∷ queue; stage = at_recv })
      → Moved k o made l id (
          if has_panicked
          then record { queue = []; stage = over }
          else record { queue = queue; stage = at_recv })
  reads-Moved has_panicked found = go has_panicked
    where
      one : Locks
      one = move_thread l id (record { queue = queue; stage = at_read })

      two : Locks
      two = move_thread one id (record { queue = queue; stage = in_read })

      r2 : Walked k o made two
      r2 =
          go_on (go_on r (receive_update id queue found))
            (reading id queue (get-insert_self id _ l.threads) free)

      go :
          (b : Bool)
          → Moved k o made l id (
              if b
              then record { queue = []; stage = over }
              else record { queue = queue; stage = at_recv })
      go true = record {
        threads = insert id (record { queue = []; stage = over }) two.threads;
        reach = go_on r2 (panicked id queue (get-insert_self id _ one.threads));
        found = get-insert_self id _ two.threads;
        others = λ j other.
            get-insert_other id j _ two.threads other
            ∙ get-insert_other id j _ one.threads other
            ∙ get-insert_other id j _ l.threads other;
      }
      go false = record {
        threads = insert id (record { queue = queue; stage = at_recv }) two.threads;
        reach = go_on r2 (processed id queue (get-insert_self id _ one.threads));
        found = get-insert_self id _ two.threads;
        others = λ j other.
            get-insert_other id j _ two.threads other
            ∙ get-insert_other id j _ one.threads other
            ∙ get-insert_other id j _ l.threads other;
      }

module _ (p : Platform) where
  finish_update-thread :
      (w : Worker p) (done : Processed)
      → w.running ≡ true
      → thread_of p (finish_update p w done) ≡ (
          if done.has_panicked
          then record { queue = []; stage = over }
          else record { queue = w.queue; stage = at_recv })
  unfolding finish_update stop
  finish_update-thread w done on = elim (Bool-cases done.has_panicked) [
    | inl bad ↦ rw bad refl
    | inr good ↦ rw (good, on) refl
  ]

  on_recv-Moved :
      {k : ℕ} {o : Locks} {made : List Call} (l : Locks) (id : ℕ) (w w' : Worker p)
      (quotes : Quotes p)
      → Walked k o made l
      → l.quotes_guard ≡ none
      → get id l.threads ≡ some (thread_of p w)
      → w.running ≡ true
      → w.connected ≡ true
      → on_recv p (some quotes) w w.queue ≡ some w'
      → Moved k o made l id (thread_of p w')
  unfolding on_recv on_update stop
  on_recv-Moved {k = k} {o = o} {made = made} l id w w' quotes r free found on connected e =
      by_queue w.queue (found ∙ rw on refl) e
    where
      by_queue :
          (queue : List ClientCommand)
          → get id l.threads ≡ some (record { queue = queue; stage = at_recv })
          → on_recv p (some quotes) w queue ≡ some w'
          → Moved k o made l id (thread_of p w')
      by_queue [] at_thread e = absurd (waits (rw connected at e))
        where
          waits : none ≡ some w' → ⊥
          waits e = cc
      by_queue (update ∷ queue) at_thread e =
          let done = process p (call p w.callback) quotes w.tickers [] 0 in
          let v : Worker p = record w { queue = queue } in
          subst (λ x. Moved k o made l id (thread_of p x)) (some-eq (finish_update p v done) w' e)
            (subst (Moved k o made l id) (sym (finish_update-thread v done on))
              (reads-Moved l r free id queue done.has_panicked at_thread))
      by_queue (shutdown ∷ queue) at_thread e =
          subst (λ v. Moved k o made l id (thread_of p v)) (some-eq (stop p w) w' e)
            (ends-Moved l r free id queue at_thread)

  moved-Agrees :
      (f : ℕ → Option (Client p)) (next : ℕ) (l : Locks) (id : ℕ) (c : Client p) (w : Worker p)
      (threads : List (ℕ × Thread))
      → Agrees p f next l
      → f id ≡ some c
      → get id threads ≡ some (thread_of p w)
      → ((j : ℕ) → id ≢ j → get j threads ≡ get j l.threads)
      → Agrees p
          (put p id (some (record c { tx = some w })) f)
          next
          (record l { threads = threads })
  moved-Agrees f next l id c w threads agrees there found others = record {
    there = λ j d e. elim (Bool-cases (eqb id j)) [
      | inl hit ↦
          let same = (eqb_iff id j).0 hit in
          (
            subst (λ i. contains i l.clients ≡ true) same (agrees.there id c there).0,
            subst (λ x. Runs p x threads j) (some-eq (record c { tx = some w }) d (rw hit at e))
                (record {
                  worker = w;
                  tx = refl;
                  thread = subst (λ i. get i threads ≡ some (thread_of p w)) same found;
                }),
          )
      | inr miss ↦
          let (known, runs) = agrees.there j d (rw miss at e) in
          let other : id ≢ j = λ e. let hit = (eqb_iff id j).1 e in cc in
          (
            known,
            record { worker = runs.worker; tx = runs.tx; thread = others j other ∙ runs.thread },
          )
    ];
    gone = λ j e. elim (Bool-cases (eqb id j)) [
      | inl hit ↦ absurd (some_none (rw hit at e))
      | inr miss ↦ agrees.gone j (rw miss at e)
    ];
    distinct = agrees.distinct;
    count = agrees.count;
  }
    where
      some_none : {x : Client p} → some x ≡ none → ⊥
      some_none e = cc

  -- What a thread of a client makes of its next command while the quotes can be read is a run of the
  -- smaller steps: the locks then say of it what the detailed model says.
  pub on_recv-Simulated :
      (k : ℕ) (o : Locks) (made : List Call) (f : ℕ → Option (Client p)) (next : ℕ) (l : Locks)
      (id : ℕ) (c : Client p) (w w' : Worker p) (quotes : Quotes p)
      → Walked k o made l
      → IsIdle k l
      → Agrees p f next l
      → f id ≡ some c
      → c.tx ≡ some w
      → w.running ≡ true
      → w.connected ≡ true
      → on_recv p (some quotes) w w.queue ≡ some w'
      → Simulated p k o made (put p id (some (record c { tx = some w' })) f) next
  on_recv-Simulated k o made f next l id c w w' quotes r free agrees there tx on connected e =
      let (_, runs) = agrees.there id c there in
      let same : runs.worker ≡ w = some-eq runs.worker w (sym runs.tx ∙ tx) in
      let found = runs.thread ∙ ap (λ x. some (thread_of p x)) same in
      let m = on_recv-Moved l id w w' quotes r free.quotes_free found on connected e in
      (
        record l { threads = m.threads },
        m.reach,
        record {
          clients_free = free.clients_free;
          quotes_free = free.quotes_free;
          caller = free.caller;
        },
        moved-Agrees f next l id c w' m.threads agrees there m.found m.others,
      )
