-- ===== src/Server/Handles.antt =====
-- Who holds the quote server, and its `Drop`: src/quote_server.rs.
use rust_quote_streamer.Base.{ℕ, ◌+◌, ◌-◌, Option, none, some, ◌>>=◌, eqb, if◌then◌else◌}
use rust_quote_streamer.Platform.{Platform}
use rust_quote_streamer.Server.State.{QuoteServer, Phase, ended}
use rust_quote_streamer.Server.Update.{Rayon}
use rust_quote_streamer.Server.Background.{Surroundings, shutdown}

module _ (p : Platform) (run : Rayon p) where
  -- `impl Drop`
  unfoldable pub drop : (ℕ → Surroundings p) → QuoteServer p → Option (QuoteServer p × Option Phase)
  drop worlds s = shutdown p run worlds s

  -- The server behind its `Arc`; `others` counts the handles but that of the background thread, which
  -- has one of its own until it ends.
  pub record Shared : Type 0 where
    pub others : ℕ
    pub server : QuoteServer p

  abbrev pub thread_handles : Option Phase → ℕ
  thread_handles none = 0
  thread_handles (some ended) = 0
  thread_handles (some phase) = 1

  abbrev pub strong_count : Shared → ℕ
  strong_count h = h.others + thread_handles h.server.bg_thread

  -- One of the other handles is dropped; the last handle drops the server.
  unfoldable pub release : (ℕ → Surroundings p) → Shared → Option Shared
  unfolding drop
  release worlds h =
      let left = record h { others = h.others - 1 } in
      if eqb (strong_count left) 0
      then (drop worlds left.server >>= λ dropped. some (record left { server = dropped.0 }))
      else some left

  -- The background thread drops its own handle at its end. If it is the last one, the thread drops
  -- the server and joins itself, so that it panics or does not return.
  unfoldable pub release_own : Shared → Option Shared
  release_own h =
      let left = record h { server = record h.server { bg_thread = some ended } } in
      if eqb (strong_count left) 0 then none else some left
