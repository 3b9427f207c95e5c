-- ===== src/Cli/UdpListener.antt =====
-- The thread of bins/client/main.rs that prints what arrives on its UDP socket.
use rust_quote_streamer.Base.{
  ℕ, ◌+◌, ◌^◌, ◌<◌, ◌≡◌, List, [], ◌∷◌, ◌++◌, Option, none, some, arith, ltb, if◌then◌else◌, take,
  append-nil, append_assoc,
}
use rust_quote_streamer.Text.{Text, codes, trim, to_decimal, from_utf8_lossy}

-- What `recv_from` waits for: a datagram with the print of its sender, a timeout, or another error.
pub data Received : Type 0 where
  datagram : List ℕ → Text → Received
  no_message : Received
  receive_error : Text → Received

-- The counter is an `i32`.
pub record Listener : Type 0 where
  pub message_count : ℕ
  pub printed : List Text

-- The addition to the counter panics when it overflows, in a build that checks for it.
pub data Listened : Type 0 where
  listens overflows : Listened

abbrev pub i32_limit : ℕ
i32_limit = 2 ^ 31

-- The bytes of `buf`.
abbrev pub buffer_size : ℕ
buffer_size = 2048

-- `&buf[..n]`: of a datagram that is longer than the buffer, the rest is discarded.
abbrev pub received_bytes : List ℕ → List ℕ
received_bytes = take buffer_size

-- The lines that are printed for one datagram.
unfoldable pub update_text : ℕ → Text → Text → Text
update_text n src body =
    (codes "\n=== Quote Update #" ++ to_decimal n ++ codes " ===\n")
    ++ (codes "From: " ++ src ++ codes "\n")
    ++ (codes "Message:\n" ++ body ++ codes "\n\n")

-- The parser and the printer of `serde_json`.
module _ {Value : Type 0} (from_str : Text → Option Value)
    (to_string_pretty : Value → Option Text) where
  unfoldable pub or_raw : Text → Option Text → Text
  or_raw raw none = raw
  or_raw raw (some text) = text

  unfoldable pub pretty_json : Text → Option Value → Text
  unfolding or_raw
  pretty_json raw none = raw
  pretty_json raw (some json) = or_raw raw (to_string_pretty json)

  unfoldable pub pretty : List ℕ → Text
  unfolding pretty_json
  pretty bytes =
      let raw = trim (from_utf8_lossy (received_bytes bytes)) in pretty_json raw (from_str raw)

  unfoldable pub quote_update : ℕ → List ℕ → Text → Text
  unfolding pretty update_text
  quote_update n bytes src = update_text n src (pretty bytes)

  unfoldable pub listen : List Received → Listener → Listener × Listened
  unfolding quote_update
  listen [] l = (l, listens)
  listen (datagram bytes src ∷ received) l =
      let rest = listen received (record {
        message_count = l.message_count + 1;
        printed = l.printed ++ quote_update (l.message_count + 1) bytes src ∷ [];
      }) in
      if ltb (l.message_count + 1) i32_limit then rest else (l, overflows)
  listen (no_message ∷ received) l = listen received l
  listen (receive_error e ∷ received) l = listen received l

  abbrev pub datagram_count : List Received → ℕ
  datagram_count [] = 0
  datagram_count (datagram bytes src ∷ received) = 1 + datagram_count received
  datagram_count (no_message ∷ received) = datagram_count received
  datagram_count (receive_error e ∷ received) = datagram_count received

  -- The prints of the datagrams, numbered behind `n`.
  abbrev pub updates : ℕ → List Received → List Text
  updates n [] = []
  updates n (datagram bytes src ∷ received) =
      quote_update (n + 1) bytes src ∷ updates (n + 1) received
  updates n (no_message ∷ received) = updates n received
  updates n (receive_error e ∷ received) = updates n received

  -- Every datagram is printed once, in the order of arrival and under consecutive numbers, as pretty
  -- JSON or, if it is none, as the text it is; a timeout or an error prints nothing and ends nothing,
  -- as long as the number of the datagrams stays within the range of the counter.
  pub listen_lem :
      (received : List Received) (l : Listener)
      → l.message_count + datagram_count received < i32_limit
      → listen received l ≡ (
        record {
          message_count = l.message_count + datagram_count received;
          printed = l.printed ++ updates l.message_count received;
        },
        listens,
      )
  unfolding listen
  listen_lem [] l small = ground (arith, append-nil l.printed)
  listen_lem (datagram bytes src ∷ received) l small =
      let next : Listener = record {
        message_count = l.message_count + 1;
        printed = l.printed ++ quote_update (l.message_count + 1) bytes src ∷ [];
      } in
      ground (
        arith,
        listen_lem received next (omega arith),
        append_assoc l.printed (quote_update (l.message_count + 1) bytes src ∷ [])
            (updates (l.message_count + 1) received),
      )
  listen_lem (no_message ∷ received) l small = listen_lem received l small
  listen_lem (receive_error e ∷ received) l small = listen_lem received l small
