-- ===== src/Defs.antt =====
-- src/defs.rs: the timing constants and the volatility.
use rust_quote_streamer.Base.{ℕ}
use rust_quote_streamer.Platform.{Platform}

abbrev pub volatility : (p : Platform) → p.F64
volatility p = p.literal 82 6

abbrev pub server_tick_period_msec : ℕ
server_tick_period_msec = 200

abbrev pub quote_update_retry_period_msec : ℕ
quote_update_retry_period_msec = 10

abbrev pub write_timeout_ms : ℕ
write_timeout_ms = 1000

abbrev pub client_keep_alive_sec : ℕ
client_keep_alive_sec = 5

abbrev pub tcp_connection_tick_period_msec : ℕ
tcp_connection_tick_period_msec = 200
