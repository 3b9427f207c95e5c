-- ===== src/System/Tick.antt =====
-- What a step of the background thread leaves of the server: src/quote_server.rs.
use mathlib.Core.Option
use rust_quote_streamer.Base.{
  >>=-eq-some, if◌then◌else◌, Result, subst, ℕ, ◌≡◌, ◌≢◌, refl, sym, ap, ◌∙◌, some, Option, some-eq,
  nat_key,
}
use rust_quote_streamer.HashMap.{contains_key, get-map_values}
use rust_quote_streamer.Text.{text_key}
use rust_quote_streamer.Errors.{QuoteServerError}
use rust_quote_streamer.Platform.{Platform}
use rust_quote_streamer.Client.Thread.{Quotes}
use rust_quote_streamer.Server.State.{
  QuoteServer, Phase, at_test, at_sleep, at_update, at_notify, ended,
}
use rust_quote_streamer.Server.Registry.{notify_clients}
use rust_quote_streamer.Server.Registry.Valid.{IsValid, told, notify_clients_lem}
use rust_quote_streamer.Server.Update.{Rayon, update_quotes}
use rust_quote_streamer.Server.Background.{Surroundings, background_step}
use rust_quote_streamer.System.Calls.{SameKeys, IsUp, update_quotes-quotes}
use rust_quote_streamer.System.Owned.{IsThere}

module _ (p : Platform) (run : Rayon p) where
  -- The steps of the background thread, on the server.
  abbrev pub AfterTick : QuoteServer p → QuoteServer p → Phase → Type 0
  AfterTick s t phase' =
      (phase' ≢ ended)
      × IsUp p (record t { bg_thread = s.bg_thread }) t
      × (t.clients_count ≡ s.clients_count)
      × ((id : ℕ) → IsThere p id s.clients → IsThere p id t.clients)
      × SameKeys p s.quotes t.quotes

  update-AfterTick :
      (s t : QuoteServer p) (quotes : Quotes p)
      → t ≡ record s { quotes = quotes }
      → SameKeys p s.quotes quotes
      → IsUp p s s
      → AfterTick s t at_notify
  update-AfterTick s t quotes e keys up = rw e (
    (λ over. cc),
    record {
      valid = record { registered = up.valid.registered };
      lock = up.lock;
      flag = up.flag;
      thread = refl;
      quotes = refl;
    },
    refl,
    (λ id there. there),
    keys,
  )

  notify-AfterTick :
      (world : Surroundings p) (s t : QuoteServer p) (r : Result QuoteServerError (Unit {0}))
      → IsUp p s s
      → notify_clients p world.reads s ≡ some (t, r)
      → AfterTick s t at_test
  notify-AfterTick world s t r up e =
      let (t', e', same, valid) = notify_clients_lem p world.reads s up.valid up.lock in
      let t_eq : t ≡ t' =
        ap (λ (x : QuoteServer p × Result QuoteServerError (Unit {0})). x.0)
          (some-eq _ _ (sym e ∙ e')) in
      let t_told = t_eq ∙ same in
      (
        (λ over. cc),
        record {
          valid = subst (IsValid p) (sym t_eq) valid;
          lock = ap (λ (x : QuoteServer p). x.clients_poisoned) t_told ∙ up.lock;
          flag = ap (λ (x : QuoteServer p). x.shutdown_flag) t_told ∙ up.flag;
          thread = ap (λ (x : QuoteServer p). x.bg_thread) t_told;
          quotes = refl;
        },
        ap (λ (x : QuoteServer p). x.clients_count) t_told,
        (λ id there.
            subst (λ (x : QuoteServer p). IsThere p id x.clients) (sym t_told)
              (
                told p there.0,
                get-map_values (λ _ c. told p c) id s.clients ∙ ap (Option.map (told p)) there.1,
              )),
        (λ x. ap (λ (y : QuoteServer p). contains_key x y.quotes) t_told),
      )

  -- A step whose result is known.
  AfterTick-eq :
      (s t t' : QuoteServer p) (phase phase' : Phase)
      → ◌≡◌ {A = Option (QuoteServer p × Phase)} (some (t, phase)) (some (t', phase'))
      → AfterTick s t phase
      → AfterTick s t' phase'
  AfterTick-eq s t t' phase phase' e h =
      subst (λ (x : QuoteServer p × Phase). AfterTick s x.0 x.1) (some-eq (t, phase) (t', phase') e)
        h

  pub tick-AfterTick :
      (world : Surroundings p) (phase phase' : Phase) (s t : QuoteServer p)
      → phase ≢ ended
      → IsUp p s s
      → background_step p run world s phase ≡ some (t, phase')
      → AfterTick s t phase'
  unfolding background_step
  tick-AfterTick world at_test phase' s t awake up e =
      AfterTick-eq s s t at_sleep phase'
        (ap (λ b. some (s, if b then ended else at_sleep)) (sym up.flag) ∙ e)
        ((λ over. cc), up, refl, (λ id there. there), (λ x. refl))
  tick-AfterTick world at_sleep phase' s t awake up e =
      AfterTick-eq s s t at_update phase' e
        ((λ over. cc), up, refl, (λ id there. there), (λ x. refl))
  tick-AfterTick world at_update phase' s t awake up e =
      let (done, made, rest) =
        >>=-eq-some (update_quotes p run world.attempts world.draws s)
          (λ done. some (done.0, at_notify)) e in
      let (quotes, same, keys) =
        update_quotes-quotes p run world.attempts world.draws s done.0 done.1 made in
      AfterTick-eq s done.0 t at_notify phase' rest (update-AfterTick s done.0 quotes same keys up)
  tick-AfterTick world at_notify phase' s t awake up e =
      let (done, made, rest) =
        >>=-eq-some (notify_clients p world.reads s) (λ done. some (done.0, at_test)) e in
      AfterTick-eq s done.0 t at_test phase' rest (notify-AfterTick world s done.0 done.1 up made)
  tick-AfterTick world ended phase' s t awake up e = absurd (awake refl)
