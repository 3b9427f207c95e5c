-- ===== src/Client/Join.antt =====
-- How the loop of a thread ends: src/client.rs, the loop in `Client::start`.
use rust_quote_streamer.Base.{
  ℕ, zero, suc, ◌+◌, ◌≤◌, ◌≡◌, refl, ap, ◌∙◌, List, [], ◌∷◌, ◌++◌, Option, none, some, ◌>>=◌, inl,
  inr, ◌⊎◌, arith, append-nil, append_assoc, Bool-cases, true, false, length,
}
use rust_quote_streamer.Text.{Text}
use rust_quote_streamer.Platform.{Platform}
use rust_quote_streamer.Client.Thread.{
  ClientCommand, update, shutdown, call, Processed, Quotes, Reads, Worker, process, finish_update,
  on_update, on_recv, stop, rounds, join,
}
use rust_quote_streamer.Client.Delivery.{Returns, messages, process_lem}

-- A `Shutdown` stands in the queue.
abbrev pub Stops : List ClientCommand → Type 0
Stops [] = ⊥
Stops (shutdown ∷ queue) = Unit {0}
Stops (update ∷ queue) = Stops queue

pub Stops-append : (queue : List ClientCommand) → Stops (queue ++ shutdown ∷ [])
Stops-append [] = tt
Stops-append (shutdown ∷ queue) = tt
Stops-append (update ∷ queue) = Stops-append queue

module _ (p : Platform) where
  -- The messages of one `Update`: none if the lock is poisoned.
  abbrev pub batch : Option (Quotes p) → List Text → List Text
  batch none tickers = []
  batch (some quotes) tickers = messages p quotes tickers

  -- The messages of the `Update`s in front of the first `Shutdown`, of which the first is read as the
  -- `i`-th.
  abbrev pub batches : Reads p → ℕ → List Text → List ClientCommand → List Text
  batches reads i tickers [] = []
  batches reads i tickers (shutdown ∷ queue) = []
  batches reads i tickers (update ∷ queue) =
      batch (reads i) tickers ++ batches reads (i + 1) tickers queue

  -- A thread that has ended: its loop is left, its receiver dropped.
  pub record HasEnded (w : Worker p) : Type 0 where
    pub left : w.running ≡ false
    pub dropped : w.queue ≡ []

  stop-HasEnded : (w : Worker p) → HasEnded (stop p w)
  unfolding stop
  stop-HasEnded w = record { left = refl; dropped = refl }

  finish_update_cases :
      (w : Worker p) (done : Processed)
      → w.running ≡ true
      → HasEnded (finish_update p w done)
        ⊎ (((finish_update p w done).running ≡ true) × ((finish_update p w done).queue ≡ w.queue))
  unfolding finish_update stop
  finish_update_cases w done h = elim (Bool-cases done.has_panicked) [
    | inl bad ↦ rw bad (inl (record { left = refl; dropped = refl }))
    | inr good ↦ rw good (inr (h, refl))
  ]

  on_update_cases :
      (w : Worker p) (reading : Option (Quotes p))
      → w.running ≡ true
      → HasEnded (on_update p w reading)
        ⊎ (((on_update p w reading).running ≡ true) × ((on_update p w reading).queue ≡ w.queue))
  unfolding on_update
  on_update_cases w none h = inr (h, refl)
  on_update_cases w (some quotes) h =
      finish_update_cases w (process p (call p w.callback) quotes w.tickers [] 0) h

  rounds_ended :
      (reads : Reads p) (fuel i : ℕ) (w : Worker p)
      → w.running ≡ false
      → rounds p reads fuel i w ≡ some w
  unfolding rounds
  rounds_ended reads zero i w h = ground arith
  rounds_ended reads (suc fuel) i w h = ground arith

  rounds_running :
      (reads : Reads p) (fuel i : ℕ) (w : Worker p) (queue : List ClientCommand)
      → w.running ≡ true
      → w.queue ≡ queue
      → rounds p reads (suc fuel) i w
        ≡ (on_recv p (reads i) w queue >>= rounds p reads fuel (i + 1))
  unfolding rounds
  rounds_running reads fuel i w queue h e = ground arith

  rounds_update :
      (reads : Reads p) (fuel i : ℕ) (w : Worker p) (queue : List ClientCommand)
      → w.running ≡ true
      → w.queue ≡ update ∷ queue
      → rounds p reads (suc fuel) i w
        ≡ rounds p reads fuel (i + 1) (on_update p (record w { queue = queue }) (reads i))
  unfolding on_recv
  rounds_update reads fuel i w queue h e = rounds_running reads fuel i w _ h e

  rounds-shutdown :
      (reads : Reads p) (fuel i : ℕ) (w : Worker p) (queue : List ClientCommand)
      → w.running ≡ true
      → w.queue ≡ shutdown ∷ queue
      → rounds p reads (suc fuel) i w ≡ some (stop p w)
  unfolding on_recv
  rounds-shutdown reads fuel i w queue h e =
      rounds_running reads fuel i w _ h e
      ∙ rounds_ended reads fuel (i + 1) (stop p w) (stop-HasEnded w).left

  rounds-HasEnded :
      (reads : Reads p) (fuel i : ℕ) (w : Worker p) (queue : List ClientCommand)
      → w.running ≡ true
      → w.queue ≡ queue
      → Stops queue
      → length queue ≤ fuel
      → (w' : Worker p) × (rounds p reads fuel i w ≡ some w') × HasEnded w'
  rounds-HasEnded reads fuel i w [] on e stops enough = absurd stops
  rounds-HasEnded reads zero i w (c ∷ queue) on e stops enough = absurd (omega arith)
  rounds-HasEnded reads (suc fuel) i w (shutdown ∷ queue) on e stops enough =
      (stop p w, rounds-shutdown reads fuel i w queue on e, stop-HasEnded w)
  rounds-HasEnded reads (suc fuel) i w (update ∷ queue) on e stops enough =
      let w' = on_update p (record w { queue = queue }) (reads i) in
      rw (rounds_update reads fuel i w queue on e)
        (elim (on_update_cases (record w { queue = queue }) (reads i) on) [
          | inl ended ↦ (w', rounds_ended reads fuel (i + 1) w' ended.left, ended)
          | inr (on', e') ↦ rounds-HasEnded reads fuel (i + 1) w' queue on' e' stops (omega arith)
        ])

  pub on_update-Returns :
      (w : Worker p) (reading : Option (Quotes p))
      → Returns (call p w.callback)
      → on_update p w reading ≡ record w { calls = w.calls ++ batch reading w.tickers }
  unfolding on_update finish_update
  on_update-Returns w none total = ground (arith, append-nil w.calls)
  on_update-Returns w (some quotes) total =
      rw (process_lem p (call p w.callback) quotes w.tickers [] 0 total)

  rounds-batches :
      (reads : Reads p) (fuel i : ℕ) (w : Worker p) (queue : List ClientCommand)
      → Returns (call p w.callback)
      → w.running ≡ true
      → w.queue ≡ queue
      → Stops queue
      → length queue ≤ fuel
      → rounds p reads fuel i w
        ≡ some (stop p (record w { calls = w.calls ++ batches reads i w.tickers queue }))
  rounds-batches reads fuel i w [] total on e stops enough = absurd stops
  rounds-batches reads zero i w (c ∷ queue) total on e stops enough = absurd (omega arith)
  rounds-batches reads (suc fuel) i w (shutdown ∷ queue) total on e stops enough =
      rounds-shutdown reads fuel i w queue on e ∙ stop_calls
    where
      stop_calls : some (stop p w) ≡ some (stop p (record w { calls = w.calls ++ [] }))
      stop_calls = unfold stop in ground (arith, append-nil w.calls)
  rounds-batches reads (suc fuel) i w (update ∷ queue) total on e stops enough =
      let w' = record w { queue = queue; calls = w.calls ++ batch (reads i) w.tickers } in
      rounds_update reads fuel i w queue on e
      ∙ ap (rounds p reads fuel (i + 1))
          (on_update-Returns (record w { queue = queue }) (reads i) total)
      ∙ rounds-batches reads fuel (i + 1) w' queue total on refl stops (omega arith)
      ∙ regroup
    where
      w' : Worker p
      w' = record w { queue = queue; calls = w.calls ++ batch (reads i) w.tickers }

      regroup :
          some (stop p (record w' { calls = w'.calls ++ batches reads (i + 1) w.tickers queue }))
          ≡ some
              (stop p (record w { calls = w.calls ++ batches reads i w.tickers (update ∷ queue) }))
      regroup =
          unfold stop in
          ground (
            arith,
            append_assoc w.calls (batch (reads i) w.tickers)
                (batches reads (i + 1) w.tickers queue),
          )

  -- The thread ends, whatever it reads, once it is told to.
  pub join-HasEnded :
      (reads : Reads p) (w : Worker p)
      → w.running ≡ true
      → Stops w.queue
      → (w' : Worker p) × (join p reads w ≡ some w') × HasEnded w'
  unfolding join
  join-HasEnded reads w on stops =
      rounds-HasEnded reads (suc (length w.queue)) 0 w w.queue on refl stops (omega arith)

  pub join_ended : (reads : Reads p) (w : Worker p) → w.running ≡ false → join p reads w ≡ some w
  unfolding join
  join_ended reads w h = rounds_ended reads (suc (length w.queue)) 0 w h

  -- If no call of the callback panics, the thread has by then processed each `Update` in front of the
  -- `Shutdown`, in order, and nothing else.
  pub join-batches :
      (reads : Reads p) (w : Worker p)
      → Returns (call p w.callback)
      → w.running ≡ true
      → Stops w.queue
      → join p reads w
        ≡ some (stop p (record w { calls = w.calls ++ batches reads 0 w.tickers w.queue }))
  unfolding join
  join-batches reads w total on stops =
      rounds-batches reads (suc (length w.queue)) 0 w w.queue total on refl stops (omega arith)
