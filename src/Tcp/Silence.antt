-- ===== src/Tcp/Silence.antt =====
-- A connection of src/tcp_server.rs whose peer has fallen silent.
use rust_quote_streamer.Base.{
  ℕ, ◌+◌, ◌-◌, ◌*◌, ◌≤◌, ◌<◌, ◌≡◌, refl, ap, ◌∙◌, ◌⊎◌, inl, inr, List, [], ◌∷◌, length, none, some,
  ◌>>=◌, Result, ok, err, arith,
}
use rust_quote_streamer.Text.{Text}
use rust_quote_streamer.Platform.{Platform}
use rust_quote_streamer.Errors.{QuoteServerError}
use rust_quote_streamer.Defs.{tcp_connection_tick_period_msec}
use rust_quote_streamer.Tcp.Service.{QuoteService, IsService}
use rust_quote_streamer.Tcp.Handlers.{Session}
use rust_quote_streamer.Tcp.Connection.{
  timed_out, Round, goes_on, handle_round, unless_returned, serve,
}
use rust_quote_streamer.Tcp.KeepAlive.{keep_alive_limit, keep_alive, EndsClean, ends_with}

-- The timeout of a read, and the sleep after it, in nanoseconds.
abbrev pub tick : ℕ
tick = tcp_connection_tick_period_msec * 1000000

module _ (p : Platform) where
  -- Rounds whose reads time out: the first at this time at the earliest, each other a sleep and a read
  -- after the one before.
  abbrev pub Silent : ℕ → List (Round p) → Type 0
  Silent earliest [] = Unit {0}
  Silent earliest (r ∷ rounds) =
      ((part : Text) × (r.reading ≡ timed_out part))
      × (earliest ≤ r.now)
      × Silent (r.now + 2 * tick) rounds

  module _ (q : QuoteService p) (service : IsService p q) where
    open q use {State}
    open service use {IsReady, HasRoom}

    serve-goes_on :
        (r : Round p) (rounds : List (Round p)) (s : State) (session : Session)
        → handle_round p q r s session ≡ some (s, session, goes_on)
        → serve p q (r ∷ rounds) s session ≡ serve p q rounds s session
    unfolding serve
    serve-goes_on r rounds s session e =
        ap (λ call. call >>= unless_returned p q (serve p q rounds)) e

    serve-EndsClean :
        (r : Round p) (rounds : List (Round p)) (id : ℕ) (s : State) (session : Session)
        → EndsClean p q service id s session (ok tt) (handle_round p q r s session)
        → EndsClean p q service id s session (ok tt) (serve p q (r ∷ rounds) s session)
    unfolding serve
    serve-EndsClean r rounds id s session (t, x, e, gone, same) =
        (t, x, ap (λ call. call >>= unless_returned p q (serve p q rounds)) e ∙ stops x, gone, same)
      where
        stops :
            (x : Result QuoteServerError (Unit {0}))
            → unless_returned p q
                (serve p q rounds)
                (t, record session { client_id = none }, ends_with p q service (ok tt) x)
              ≡ some (t, record session { client_id = none }, ends_with p q service (ok tt) x)
        stops (ok y) = refl
        stops (err y) = refl

    early_or_late :
        (now last : ℕ) → (now - last < keep_alive_limit) ⊎ (keep_alive_limit ≤ now - last)
    early_or_late now last = ground arith

    silence-EndsClean :
        (rounds : List (Round p)) (earliest id n : ℕ) (s : State) (session : Session)
        → Silent earliest rounds
        → 1 ≤ length rounds
        → keep_alive_limit + session.last_ping + 2 * tick ≤ earliest + length rounds * (2 * tick)
        → session.client_id ≡ some id
        → IsReady s
        → HasRoom n s
        → EndsClean p q service id s session (ok tt) (serve p q rounds s session)
    silence-EndsClean [] earliest id n s session silent some_rounds long own ready room =
        absurd (omega (arith, some_rounds))
    silence-EndsClean (r ∷ rounds) earliest id n s session ((part, reading), after, silent)
          some_rounds long own ready room =
        let (goes, ends) = keep_alive p q service r part id n s session reading own ready room in
        elim (early_or_late r.now session.last_ping) [
          | inl early ↦ rw (serve-goes_on r rounds s session (goes early)) (
              silence-EndsClean rounds (r.now + 2 * tick) id n s session silent
                (omega (arith, long, after, early)) (omega (arith, long, after, early)) own ready
                room)
          | inr late ↦ serve-EndsClean r rounds id s session (ends late)
        ]

    -- A connection whose peer sends no line any more ends: if each read times out, after one tick and
    -- with a sleep of one tick in between, then at the 16th such read at the latest the connection
    -- has returned, its client has been removed, and every other client is as before.
    pub silence_ends :
        (rounds : List (Round p)) (id n : ℕ) (s : State) (session : Session)
        → Silent (session.last_ping + tick) rounds
        → 16 ≤ length rounds
        → session.client_id ≡ some id
        → IsReady s
        → HasRoom n s
        → EndsClean p q service id s session (ok tt) (serve p q rounds s session)
    silence_ends rounds id n s session silent enough own ready room =
        silence-EndsClean rounds (session.last_ping + tick) id n s session silent
          (omega (arith, enough)) (omega (arith, enough)) own ready room
