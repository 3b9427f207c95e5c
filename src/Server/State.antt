-- ===== src/Server/State.antt =====
-- The state of a `QuoteServer`: src/quote_server.rs.
use rust_quote_streamer.Base.{ℕ, Bool, List, Option}
use rust_quote_streamer.Platform.{Platform}
use rust_quote_streamer.Generator.{QuoteGenerator}
use rust_quote_streamer.Client.{Client}
use rust_quote_streamer.Client.Thread.{Quotes}

-- Where the background thread stands in its loop.
pub data Phase : Type 0 where
  at_test at_sleep at_update at_notify ended : Phase

module _ (p : Platform) where
  -- A lock is poisoned if a thread has panicked while it held the lock. `retired` holds the clients
  -- that are no longer in the map, as they were dropped, last first.
  pub record QuoteServer : Type 0 where
    pub quotes : Quotes p
    pub generator : QuoteGenerator p
    pub clients : List (ℕ × Client p)
    pub clients_poisoned : Bool
    pub clients_count : ℕ
    pub bg_thread : Option Phase
    pub bg_thread_poisoned : Bool
    pub shutdown_flag : Bool
    pub retired : List (Client p)
