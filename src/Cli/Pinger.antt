-- ===== src/Cli/Pinger.antt =====
-- The thread of bins/client/main.rs that sends `PING`.
use rust_quote_streamer.Base.{
  ℕ, ◌+◌, ◌≡◌, ap, ◌∙◌, List, [], ◌∷◌, ◌++◌, All, Option, none, some, ◌>>=◌, inl, inr, Result, ok,
  err, arith, Result-cases, append-nil, append_assoc,
}
use rust_quote_streamer.Text.{Text}
use rust_quote_streamer.Cli.Exchange.{
  IoError, Exchange, Exchanged, Connecting, send_ping, reconnect,
}

-- What one turn of the thread meets: the locks of the stream and the reader, the exchange, and the
-- attempts to reconnect.
pub record Beat : Type 0 where
  pub lock_error : Option Text
  pub exchange : Exchange
  pub attempts : List Connecting

-- What was written to the stream, one text for each turn, and how often the stream was replaced.
pub record Pinger : Type 0 where
  pub sent : List Text
  pub reconnects : ℕ

pub data Pinged : Type 0 where
  goes_on ends : Pinged

-- A failed `PING` makes the client reconnect; `none` while no attempt has succeeded.
unfoldable pub after_ping :
    List Connecting → Pinger → Exchanged (Unit {0}) → Option (Pinger × Pinged)
after_ping attempts k (bytes, ok _) = some (record k { sent = k.sent ++ bytes ∷ [] }, goes_on)
after_ping attempts k (bytes, err e) = do
  _ ← reconnect attempts 0
  some (record { sent = k.sent ++ bytes ∷ []; reconnects = k.reconnects + 1 }, goes_on)

-- A poisoned lock ends the thread.
unfoldable pub beat_locked : Beat → Pinger → Option Text → Option (Pinger × Pinged)
unfolding after_ping
beat_locked b k (some e) = some (k, ends)
beat_locked b k none = after_ping b.attempts k (send_ping b.exchange)

abbrev pub unless_ended :
    (Pinger → Option (Pinger × Pinged)) → Pinger × Pinged → Option (Pinger × Pinged)
unless_ended rest (k, goes_on) = rest k
unless_ended rest (k, ends) = some (k, ends)

-- The turns so far.
unfoldable pub keep_alive_loop : List Beat → Pinger → Option (Pinger × Pinged)
unfolding beat_locked
keep_alive_loop [] k = some (k, goes_on)
keep_alive_loop (b ∷ beats) k =
    beat_locked b k b.lock_error >>= unless_ended (keep_alive_loop beats)

-- A turn in which the locks are taken, and a reconnection succeeds at some time if it is needed.
pub record CanGoOn (b : Beat) : Type 0 where
  pub lock : b.lock_error ≡ none
  pub attempt : ℕ
  pub succeeds : reconnect b.attempts 0 ≡ some attempt

abbrev pub failure : Result IoError (Unit {0}) → ℕ
failure (ok _) = 0
failure (err e) = 1

-- What the turns write, and how many of them fail.
abbrev pub pings : List Beat → List Text
pings [] = []
pings (b ∷ beats) = (send_ping b.exchange).0 ∷ pings beats

abbrev pub failures : List Beat → ℕ
failures [] = 0
failures (b ∷ beats) = failure (send_ping b.exchange).1 + failures beats

beat_goes_on :
    (b : Beat) (k : Pinger)
    → CanGoOn b
    → beat_locked b k b.lock_error
      ≡ some (
        record {
          sent = k.sent ++ (send_ping b.exchange).0 ∷ [];
          reconnects = k.reconnects + failure (send_ping b.exchange).1;
        },
        goes_on,
      )
unfolding beat_locked
beat_goes_on b k can = elim (Result-cases (send_ping b.exchange).1) [
  | inl good ↦ ground (arith, good, can.lock)
  | inr (e, bad) ↦ ground (arith, bad, can.lock, can.succeeds)
]

-- The thread does not end by itself: while the locks are not poisoned and every reconnection that is
-- needed succeeds at some time, it makes one exchange a turn, in order, reconnects once for each
-- exchange that fails, and goes on.
keep_alive_loop_lem :
    (beats : List Beat) (k : Pinger)
    → All CanGoOn beats
    → keep_alive_loop beats k
      ≡ some (
        record { sent = k.sent ++ pings beats; reconnects = k.reconnects + failures beats },
        goes_on,
      )
unfolding keep_alive_loop
keep_alive_loop_lem [] k h = ground (arith, append-nil k.sent)
keep_alive_loop_lem (b ∷ beats) k (can, cans) =
    ap (λ call. call >>= unless_ended (keep_alive_loop beats)) (beat_goes_on b k can)
    ∙ keep_alive_loop_lem beats _ cans
    ∙ ground (arith, append_assoc k.sent ((send_ping b.exchange).0 ∷ []) (pings beats))
