-- ===== src/System/Program.antt =====
-- The server program from its configuration on: bins/server/main.rs with all its threads.
use rust_quote_streamer.Base.{
  ℕ, ◌+◌, ◌<◌, ◌^◌, ◌≡◌, ◌≢◌, refl, ◌∙◌, false, List, [], ◌∷◌, ◌++◌, map, none, some, Result, ok,
  err, arith,
}
use rust_quote_streamer.HashMap.{contains_key}
use rust_quote_streamer.Text.{Text, text_key}
use rust_quote_streamer.Platform.{Platform}
use rust_quote_streamer.Defs.{volatility}
use rust_quote_streamer.Errors.{TcpServerError}
use rust_quote_streamer.Generator
use rust_quote_streamer.Generator.{QuoteGenerator}
use rust_quote_streamer.Server.State.{QuoteServer, at_test, ended}
use rust_quote_streamer.Server.Config.{Fresh}
use rust_quote_streamer.Server.Config.Loaded.{all_read, names}
use rust_quote_streamer.Server.Registry.Valid.{IsValid}
use rust_quote_streamer.Server.Update.{Rayon}
use rust_quote_streamer.Cli.ServerMain.{Serving, server_main, server_main_lem}
use rust_quote_streamer.System.Defs.{System, Steps}
use rust_quote_streamer.System.Owned.{IsOwned}
use rust_quote_streamer.System.Safety.{IsStarted, reached, tickers_stay}

module _ (p : Platform) (run : Rayon p) where
  -- What the operator of the program relies on.
  pub record IsInOrder (lines : List Text) (t : System p) : Type 0 where
    pub valid : IsValid p t.server
    pub tickers : (x : Text) → contains_key x t.server.quotes ≡ names p lines x
    pub owned : IsOwned p t.server.clients t.connections
    pub flag : t.server.shutdown_flag ≡ false
    pub awake : t.server.bg_thread ≢ some ended

  main-IsStarted :
      (n : ℕ) (s : QuoteServer p)
      → n < 2 ^ 64
      → IsValid p s
      → s.clients_poisoned ≡ false
      → s.clients_count ≡ 0
      → s.shutdown_flag ≡ false
      → IsStarted p run n
          (record { server = record s { bg_thread = some at_test }; connections = [] })
  main-IsStarted n s small valid lock count flag = record {
    valid = record { registered = valid.registered };
    lock = lock;
    flag = flag;
    phase = at_test;
    thread = refl;
    awake = λ e. cc;
    room = omega (arith, small, count);
    no_connections = refl;
  }

  -- The server program, with a configuration whose lines can all be read, a volatility that the
  -- generator takes and an address that can be bound, comes to serve its peers; and from then on,
  -- after any number of steps of its threads in any order, less than the count of clients can hold:
  -- every client in the map is well-formed, the tickers are exactly those of the configuration, the
  -- client of each running connection is registered and belongs to no other running connection, and
  -- the background thread has not ended and is not asked to.
  pub program_lem :
      {Peer : Type 0} (show_debug : TcpServerError → Text) (fresh : Fresh p) (lines : List Text)
      (g : QuoteGenerator p) (address : Text) (peers : List Peer) (e : Text)
      (rest : List (Result Text Peer))
      → Generator.new p (volatility p) ≡ ok g
      → (serving : Serving p Peer) × (server_main p show_debug fresh
            (ok (all_read p lines))
            none
            address
            (map ok peers ++ err e ∷ rest)
          ≡ ok serving)
        × (serving.peers ≡ peers)
        × ((n : ℕ) (t : System p)
            → n + 1 < 2 ^ 64
            → Steps p run n (record { server = serving.server; connections = [] }) t
            → IsInOrder lines t)
  program_lem show_debug fresh lines g address peers e rest made =
      let (s, serves, keys, flag, valid, lock, count) =
        server_main_lem p show_debug fresh lines g address peers e rest made in
      (
        _,
        serves,
        refl,
        (λ n t small steps.
            let start = main-IsStarted (n + 1) s small valid lock count flag in
            let h = reached p run start steps in
            record {
              valid = h.up.valid;
              tickers = λ x. tickers_stay p run start steps x ∙ keys x;
              owned = h.owned;
              flag = h.up.flag;
              awake = h.awake;
            }),
      )
