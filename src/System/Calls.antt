-- ===== src/System/Calls.antt =====
-- The calls of the connections and of the background thread, with what they leave alone:
-- src/tcp_server.rs on src/quote_server.rs.
use rust_quote_streamer.Base.{
  ℕ, zero, suc, ◌+◌, ◌^◌, ◌<◌, ◌≡◌, refl, sym, ap, ◌∙◌, subst, inl, inr, false, some, Result, err,
  arith, some-eq, Bool-cases, nat_key, ltb,
}
use rust_quote_streamer.HashMap.{contains_key}
use rust_quote_streamer.Server.Update.Tickers.{write_back-contains_key}
use rust_quote_streamer.Platform.{Platform}
use rust_quote_streamer.Text.{Text, text_key}
use rust_quote_streamer.Errors.{QuoteServerError}
use rust_quote_streamer.Generator.{Draw}
use rust_quote_streamer.Client.Thread.{Quotes}
use rust_quote_streamer.Server.State.{QuoteServer}
use rust_quote_streamer.Server.Registry.Valid.{IsValid, add_client_lem}
use rust_quote_streamer.Server.Registry.Valid
use rust_quote_streamer.Server.Registry.Removal.{remove_client_lem}
use rust_quote_streamer.Server.Update.{
  Attempt, Rayon, write_quotes, try_update, update_quotes, timed_out, timeout, update_fuel,
}
use rust_quote_streamer.Tcp.Service.{IsService}
use rust_quote_streamer.Tcp.Handlers.{Session}
use rust_quote_streamer.Tcp.Connection.{Round, Flow, handle_round}
use rust_quote_streamer.Tcp.Kept.{IsKept}
use rust_quote_streamer.Tcp.Session.{handle_round-Leads}
use rust_quote_streamer.Tcp.Implements.{quote_server, CountsOn}

module _ (p : Platform) where
  -- A server that is in use: valid, its lock not poisoned, not asked to shut down, with the quotes of
  -- `like` and its background thread.
  pub record IsUp (like s : QuoteServer p) : Type 0 where
    pub valid : IsValid p s
    pub lock : s.clients_poisoned ≡ false
    pub flag : s.shutdown_flag ≡ false
    pub thread : s.bg_thread ≡ like.bg_thread
    pub quotes : s.quotes ≡ like.quotes

  -- The contract of the service, with the background thread and the quotes left alone.
  unfoldable pub up-IsService : QuoteServer p → IsService p (quote_server p)
  up-IsService like = record {
    IsReady = IsUp like;
    HasRoom = CountsOn p;
    less_room = λ n s room. omega arith;
    added = λ reads tickers callback n s up room.
        let (e, fresh, found, same, valid) =
          add_client_lem p reads tickers callback s up.valid up.lock (omega arith) in
        (
          Valid.added p tickers callback s,
          s.clients_count,
          e,
          fresh,
          found,
          same,
          record {
            valid = valid;
            lock = up.lock;
            flag = up.flag;
            thread = up.thread;
            quotes = up.quotes;
          },
          omega arith,
        );
    removed = λ reads id n s up room.
        let (t, w, how) = remove_client_lem p reads id s up.valid up.lock in
        let after : IsUp like t = record {
          valid = w.valid;
          lock = w.lock ∙ up.lock;
          flag = w.flag ∙ up.flag;
          thread = w.bg_thread ∙ up.thread;
          quotes = w.quotes ∙ up.quotes;
        } in
        elim how [
          | inl (missing, e, _) ↦ (t, _, e, w.gone, w.others, after, omega (arith, w.count))
          | inr (c, dropped, r, found, e, _, _) ↦
              (t, r, e, w.gone, w.others, after, omega (arith, w.count))
        ];
  }

  -- What a round that returns has left.
  pub round-IsKept :
      (like : QuoteServer p) (r : Round p) (n : ℕ) (s t : QuoteServer p)
      (session session' : Session) (flow : Flow)
      → IsUp like s
      → s.clients_count + suc n < 2 ^ 64
      → handle_round p (quote_server p) r s session ≡ some (t, session', flow)
      → IsKept p (quote_server p) (up-IsService like) n s session t session'
  unfolding up-IsService
  round-IsKept like r n s t session session' flow up room e =
      let (t', session'', flow', e', k) =
        handle_round-Leads p (quote_server p) (up-IsService like) r n s session up room in
      let same = some-eq _ _ (sym e' ∙ e) in
      subst
        (λ (x : QuoteServer p × Session × Flow).
          IsKept p (quote_server p) (up-IsService like) n s session x.0 x.1)
        same k

  abbrev pub SameKeys : Quotes p → Quotes p → Type 0
  SameKeys old new = (x : Text) → contains_key x new ≡ contains_key x old

  abbrev Done : Type 0
  Done = QuoteServer p × Result QuoteServerError (Unit {0})

  module _ (run : Rayon p) (attempts : ℕ → Attempt) (draws : Text → Draw p) where
    -- The rounds of the lock loop change the quotes only, and not their keys.
    try_update-quotes :
        (fuel k : ℕ) (s t : QuoteServer p) (r : Result QuoteServerError (Unit {0}))
        → try_update p run attempts draws fuel k s ≡ some (t, r)
        → (quotes : Quotes p) × (t ≡ record s { quotes = quotes }) × SameKeys s.quotes quotes
    unfolding try_update write_quotes
    try_update-quotes zero k s t r e = cc
    try_update-quotes (suc fuel) k s t r e = elim (Bool-cases (ltb (attempts k).elapsed timeout)) [
      | inr late ↦ (
        s.quotes,
        sym (ap (λ (x : Done). x.0) (some-eq (s, err timed_out) (t, r) (rw late at e))),
        (λ x. refl),
      )
      | inl early ↦ elim (Bool-cases (attempts k).free) [
        | inl free ↦ (
          _,
          sym (
              ap (λ (x : Done). x.0)
                (some-eq (write_quotes p run draws s) (t, r) (rw (early, free) at e))),
          (λ x. write_back-contains_key p x s.quotes _),
        )
        | inr busy ↦ try_update-quotes fuel (k + 1) s t r (rw (early, busy) at e)
      ]
    ]

    pub update_quotes-quotes :
        (s t : QuoteServer p) (r : Result QuoteServerError (Unit {0}))
        → update_quotes p run attempts draws s ≡ some (t, r)
        → (quotes : Quotes p) × (t ≡ record s { quotes = quotes }) × SameKeys s.quotes quotes
    unfolding update_quotes
    update_quotes-quotes s t r e = try_update-quotes update_fuel 0 s t r e
