-- ===== src/Tcp/Service.antt =====
-- What a connection of src/tcp_server.rs uses of `QuoteServer`.
use rust_quote_streamer.Base.{ℕ, suc, ◌≡◌, ◌≢◌, List, Option, none, some, Result, ok}
use rust_quote_streamer.Text.{Text}
use rust_quote_streamer.Platform.{Platform}
use rust_quote_streamer.Errors.{QuoteServerError}
use rust_quote_streamer.Client.{Client}
use rust_quote_streamer.Client.Thread.{Callback, Reads}
use rust_quote_streamer.Server.Registry.Valid.{new_client}

module _ (p : Platform) where
  pub record QuoteService : Type 1 where
    pub State : Type 0
    pub add_client :
        Reads p → List Text → Callback p → State → Option (State × Result QuoteServerError ℕ)
    pub remove_client : Reads p → ℕ → State → Option (State × Result QuoteServerError (Unit {0}))
    -- The client with a number.
    pub find : ℕ → State → Option (Client p)

  module _ (q : QuoteService) where
    open q use {State, add_client, remove_client, find}

    -- `t` has the same clients as `s` but for the number `id`.
    abbrev pub SameBut : ℕ → State → State → Type 0
    SameBut id s t = (j : ℕ) → j ≢ id → find j t ≡ find j s

    -- The contract: `IsReady` are the states in which the calls return and do what they promise,
    -- `HasRoom n` those in which `n` more clients can be added.
    pub record IsService : Type 1 where
      pub IsReady : State → Type 0
      pub HasRoom : ℕ → State → Type 0
      pub less_room : (n : ℕ) (s : State) → HasRoom (suc n) s → HasRoom n s
      pub added :
          (reads : Reads p) (tickers : List Text) (callback : Callback p) (n : ℕ) (s : State)
          → IsReady s
          → HasRoom (suc n) s
          → (t : State) × (id : ℕ) × (add_client reads tickers callback s ≡ some (t, ok id))
            × (find id s ≡ none)
            × (find id t ≡ some (new_client p tickers callback))
            × SameBut id s t
            × IsReady t
            × HasRoom n t
      pub removed :
          (reads : Reads p) (id n : ℕ) (s : State)
          → IsReady s
          → HasRoom n s
          → (t : State) × (r : Result QuoteServerError (Unit {0})) × (remove_client reads id s
              ≡ some (t, r))
            × (find id t ≡ none)
            × SameBut id s t
            × IsReady t
            × HasRoom n t
