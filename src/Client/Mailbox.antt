-- ===== src/Client/Mailbox.antt =====
-- Any interleaving of the calls of `send` with the rounds of the thread: src/client.rs.
use rust_quote_streamer.Base.{
  ◌≡◌, refl, sym, ap, ◌∙◌, ◌⊎◌, inl, inr, true, false, List, [], ◌∷◌, ◌++◌, Option, none, some,
  ◌>>=◌, some-eq, if◌then◌else◌, arith, append-nil, append_assoc,
}
use rust_quote_streamer.Text.{Text}
use rust_quote_streamer.Platform.{Platform}
use rust_quote_streamer.Client.Thread.{
  ClientCommand, update, shutdown, call, Quotes, Worker, enqueue, stop, on_recv,
}
use rust_quote_streamer.Client.Delivery.{Returns}
use rust_quote_streamer.Client.Join.{batch, on_update-Returns}

module _ (p : Platform) where
  -- A command that is sent, or one `recv` of the thread with what it reads under the lock.
  pub data Event : Type 0 where
    sent : ClientCommand → Event
    received : Option (Quotes p) → Event

  -- `none` where the event cannot happen: the thread has ended, or has no command to take.
  unfoldable pub happen : Event → Worker p → Option (Worker p)
  happen (sent command) w = enqueue p command w
  happen (received reading) w = if w.running then on_recv p reading w w.queue else none

  unfoldable pub happen_all : List Event → Worker p → Option (Worker p)
  unfolding happen
  happen_all [] w = some w
  happen_all (e ∷ es) w = happen e w >>= happen_all es

  abbrev pub commands : List Event → List ClientCommand
  commands [] = []
  commands (sent command ∷ es) = command ∷ commands es
  commands (received reading ∷ es) = commands es

  abbrev pub readings : List Event → List (Option (Quotes p))
  readings [] = []
  readings (sent command ∷ es) = readings es
  readings (received reading ∷ es) = reading ∷ readings es

  abbrev pub updates : List (Option (Quotes p)) → List ClientCommand
  updates [] = []
  updates (r ∷ rs) = update ∷ updates rs

  -- The messages of `Update`s that read so.
  abbrev pub delivered : List Text → List (Option (Quotes p)) → List Text
  delivered tickers [] = []
  delivered tickers (r ∷ rs) = batch p r tickers ++ delivered tickers rs

  -- The thread runs: it has taken as many commands as it has read, in the order in which they were
  -- sent, all of them `Update`s, and what is left is in the channel.
  pub record StillRuns (w : Worker p) (es : List Event) (w' : Worker p) : Type 0 where
    pub on : w'.running ≡ true
    pub taken : w.queue ++ commands es ≡ updates (readings es) ++ w'.queue
    pub calls : w'.calls ≡ w.calls ++ delivered w.tickers (readings es)

  -- The thread has ended: the last command that it took was the first `Shutdown` in the channel.
  pub record HasStopped (w : Worker p) (es : List Event) (w' : Worker p) : Type 0 where
    pub off : w'.running ≡ false
    pub before : List (Option (Quotes p))
    pub last : Option (Quotes p)
    pub rest : List ClientCommand
    pub read : readings es ≡ before ++ last ∷ []
    pub taken : w.queue ++ commands es ≡ updates before ++ shutdown ∷ rest
    pub calls : w'.calls ≡ w.calls ++ delivered w.tickers before

  nothing_after_stop :
      (es : List Event) (w w' : Worker p)
      → w.running ≡ false
      → happen_all es w ≡ some w'
      → (es ≡ []) × (w ≡ w')
  unfolding happen_all enqueue
  nothing_after_stop [] w w' off e = (refl, some-eq w w' e)
  nothing_after_stop (sent c ∷ es) w w' off e = absurd (ground arith)
  nothing_after_stop (received r ∷ es) w w' off e = absurd (ground arith)

  -- A send to a running thread.
  sent_running :
      (c : ClientCommand) (w : Worker p)
      → w.running ≡ true
      → happen (sent c) w ≡ some (record w { queue = w.queue ++ c ∷ [] })
  unfolding happen enqueue
  sent_running c w on = ground arith

  received_update :
      (r : Option (Quotes p)) (w : Worker p) (queue : List ClientCommand)
      → Returns (call p w.callback)
      → w.running ≡ true
      → w.queue ≡ update ∷ queue
      → happen (received r) w
        ≡ some (record w { queue = queue; calls = w.calls ++ batch p r w.tickers })
  unfolding happen on_recv
  received_update r w queue total on e =
      ground (arith, on_update-Returns p (record w { queue = queue }) r total)

  received_shutdown :
      (r : Option (Quotes p)) (w : Worker p) (queue : List ClientCommand)
      → w.running ≡ true
      → w.queue ≡ shutdown ∷ queue
      → happen (received r) w ≡ some (stop p w)
  unfolding happen on_recv
  received_shutdown r w queue on e = ground arith

  received_nothing :
      (r : Option (Quotes p)) (w : Worker p)
      → w.connected ≡ true
      → w.running ≡ true
      → w.queue ≡ []
      → happen (received r) w ≡ none
  unfolding happen on_recv
  received_nothing r w here on e = ground arith

  abbrev pub Delivers : Worker p → List Event → Worker p → Type 0
  Delivers w es w' = StillRuns w es w' ⊎ HasStopped w es w'

  Delivers-sent :
      (c : ClientCommand) (es : List Event) (w w' : Worker p)
      → Delivers (record w { queue = w.queue ++ c ∷ [] }) es w'
      → Delivers w (sent c ∷ es) w'
  Delivers-sent c es w w' (inl h) = inl (record {
    on = h.on;
    taken = sym (append_assoc w.queue (c ∷ []) (commands es)) ∙ h.taken;
    calls = h.calls;
  })
  Delivers-sent c es w w' (inr h) = inr (record {
    off = h.off;
    before = h.before;
    last = h.last;
    rest = h.rest;
    read = h.read;
    taken = sym (append_assoc w.queue (c ∷ []) (commands es)) ∙ h.taken;
    calls = h.calls;
  })

  Delivers-received :
      (r : Option (Quotes p)) (es : List Event) (w w' : Worker p) (queue : List ClientCommand)
      → w.queue ≡ update ∷ queue
      → Delivers (record w { queue = queue; calls = w.calls ++ batch p r w.tickers }) es w'
      → Delivers w (received r ∷ es) w'
  Delivers-received r es w w' queue e (inl h) = inl (record {
    on = h.on;
    taken = ap (λ l. l ++ commands es) e ∙ ap (λ l. update ∷ l) h.taken;
    calls =
        h.calls ∙ append_assoc w.calls (batch p r w.tickers) (delivered w.tickers (readings es));
  })
  Delivers-received r es w w' queue e (inr h) = inr (record {
    off = h.off;
    before = r ∷ h.before;
    last = h.last;
    rest = h.rest;
    read = ap (λ l. r ∷ l) h.read;
    taken = ap (λ l. l ++ commands es) e ∙ ap (λ l. update ∷ l) h.taken;
    calls = h.calls ∙ append_assoc w.calls (batch p r w.tickers) (delivered w.tickers h.before);
  })

  Delivers-shutdown :
      (r : Option (Quotes p)) (es : List Event) (w w' : Worker p) (queue : List ClientCommand)
      → w.queue ≡ shutdown ∷ queue
      → happen_all es (stop p w) ≡ some w'
      → Delivers w (received r ∷ es) w'
  unfolding stop
  Delivers-shutdown r es w w' queue e rest =
      let (done, same) = nothing_after_stop es (stop p w) w' refl rest in
      inr (record {
        off = sym (ap (λ (x : Worker p). x.running) same);
        before = [];
        last = r;
        rest = queue;
        read = rw done;
        taken = rw done (append-nil w.queue ∙ e);
        calls = sym (ap (λ (x : Worker p). x.calls) same) ∙ sym (append-nil w.calls);
      })

  -- However the sends and the rounds of a thread are interleaved, if no call of the callback panics
  -- and the sender is there: the callback is called with the messages of each `Update` that was
  -- taken, in the order of the sends, once, and with nothing else; commands that were not taken are
  -- still in the channel, in order, while the thread runs; and it ends only by taking a `Shutdown`,
  -- after all that was sent before it.
  pub mailbox_lem :
      (es : List Event) (w w' : Worker p)
      → Returns (call p w.callback)
      → w.connected ≡ true
      → w.running ≡ true
      → happen_all es w ≡ some w'
      → Delivers w es w'
  unfolding happen_all
  mailbox_lem [] w w' total here on e =
      let same = some-eq w w' e in
      inl (record {
        on = sym (ap (λ (x : Worker p). x.running) same) ∙ on;
        taken = append-nil w.queue ∙ ap (λ (x : Worker p). x.queue) same;
        calls = sym (ap (λ (x : Worker p). x.calls) same) ∙ sym (append-nil w.calls);
      })
  mailbox_lem (sent c ∷ es) w w' total here on e = Delivers-sent c es w w' (
      mailbox_lem es (record w { queue = w.queue ++ c ∷ [] }) w' total here on
        (ap (λ o. o >>= happen_all es) (sym (sent_running c w on)) ∙ e))
  mailbox_lem (received r ∷ es) w w' total here on e = taking (mailbox_lem es) w.queue refl
    where
      after : (o : Option (Worker p)) → happen (received r) w ≡ o → (o >>= happen_all es) ≡ some w'
      after o made = ap (λ x. x >>= happen_all es) (sym made) ∙ e

      taking :
          ((v v' : Worker p)
            → Returns (call p v.callback)
            → v.connected ≡ true
            → v.running ≡ true
            → happen_all es v ≡ some v'
            → Delivers v es v')
          → (queue : List ClientCommand) → w.queue ≡ queue
          → Delivers w (received r ∷ es) w'
      taking ih [] q = absurd (cc (after none (received_nothing r w here on q)))
      taking ih (shutdown ∷ queue) q =
          Delivers-shutdown r es w w' queue q (after _ (received_shutdown r w queue on q))
      taking ih (update ∷ queue) q = Delivers-received r es w w' queue q (
          ih (record w { queue = queue; calls = w.calls ++ batch p r w.tickers }) w' total here on
            (after _ (received_update r w queue total on q)))
