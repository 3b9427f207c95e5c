-- ===== src/Tcp/Implements.antt =====
-- `QuoteServer` as the service of src/tcp_server.rs.
use rust_quote_streamer.Base.{ℕ, ◌+◌, ◌^◌, ◌<◌, ◌≡◌, ◌∙◌, inl, inr, false, arith, nat_key}
use rust_quote_streamer.HashMap.{get}
use rust_quote_streamer.Platform.{Platform}
use rust_quote_streamer.Server.State.{QuoteServer}
use rust_quote_streamer.Server.Registry
use rust_quote_streamer.Server.Registry.Valid.{IsValid, add_client_lem}
use rust_quote_streamer.Server.Registry.Valid
use rust_quote_streamer.Server.Registry.Removal.{remove_client_lem}
use rust_quote_streamer.Tcp.Service.{QuoteService, IsService}

module _ (p : Platform) where
  abbrev pub quote_server : QuoteService p
  quote_server = record {
    State = QuoteServer p;
    add_client = Registry.add_client p;
    remove_client = Registry.remove_client p;
    find = λ id s. get id s.clients;
  }

  abbrev pub IsOpen : QuoteServer p → Type 0
  IsOpen s = IsValid p s × (s.clients_poisoned ≡ false)

  abbrev pub CountsOn : ℕ → QuoteServer p → Type 0
  CountsOn n s = s.clients_count + n < 2 ^ 64

  -- The quote server keeps the contract: on a valid server whose lock is not poisoned, while the count
  -- does not wrap around.
  unfoldable pub quote_server-IsService : IsService p quote_server
  quote_server-IsService = record {
    IsReady = IsOpen;
    HasRoom = CountsOn;
    less_room = λ n s room. omega arith;
    added = λ reads tickers callback n s (valid, lock) room.
        let (e, fresh, found, same, valid') =
          add_client_lem p reads tickers callback s valid lock (omega arith) in
        (
          Valid.added p tickers callback s,
          s.clients_count,
          e,
          fresh,
          found,
          same,
          (valid', lock),
          omega arith,
        );
    removed = λ reads id n s (valid, lock) room.
        let (t, w, how) = remove_client_lem p reads id s valid lock in
        elim how [
          | inl (missing, e, _) ↦
              (t, _, e, w.gone, w.others, (w.valid, w.lock ∙ lock), omega (arith, w.count))
          | inr (c, dropped, r, found, e, _, _) ↦
              (t, r, e, w.gone, w.others, (w.valid, w.lock ∙ lock), omega (arith, w.count))
        ];
  }
