-- ===== src/Tcp/Stream.antt =====
-- The command `STREAM`: `handle_stream` of src/tcp_server.rs.
use rust_quote_streamer.Base.{
  ℕ, suc, ◌≡◌, refl, ap, ◌∙◌, List, [], ◌∷◌, ◌++◌, none, some, ◌>>=◌, ok, err, arith, All, true,
  false,
}
use rust_quote_streamer.Text.{
  Text, codes, IsWord, IsBlank, spaced, trim-spaced, split_whitespace, split_whitespace-spaced,
  starts_with, is_empty, is_whitespace,
}
use rust_quote_streamer.Platform.{Platform}
use rust_quote_streamer.Errors.{TcpServerError}
use rust_quote_streamer.Client.Thread.{send_datagram}
use rust_quote_streamer.Server.Registry.Valid.{new_client}
use rust_quote_streamer.Tcp.Service.{QuoteService, IsService, SameBut}
use rust_quote_streamer.Tcp.Handlers.{
  Session, Io, usage, bad_address, write_all, reply, registered, bound, addressed, with_parts,
  handle_stream,
}
use rust_quote_streamer.Tcp.Connection.{
  line, Round, goes_on, returns, dispatch, propagate, on_message, handle_round,
}

-- The text of a command `STREAM`: the address, the tickers, and white space behind, such as the
-- line's end.
abbrev pub stream_line : Text → List Text → Text → Text
stream_line address tickers tail = (codes "STREAM" ++ spaced (address ∷ tickers)) ++ tail

stream-IsWord : IsWord (codes "STREAM")
unfolding is_whitespace
stream-IsWord = ((λ e. cc), (refl, (refl, (refl, (refl, (refl, (refl, tt)))))))

-- A round that reads a command `STREAM` with an address and at least one ticker, in which no call of
-- the system fails.
pub record IsStream (p : Platform) (r : Round p) : Type 0 where
  pub address_text : Text
  pub address : p.SocketAddr
  pub ticker : Text
  pub tickers : List Text
  pub tail : Text
  pub address_word : IsWord address_text
  pub ticker_word : IsWord ticker
  pub ticker_words : All IsWord tickers
  pub blank : IsBlank tail
  pub parsed : p.parse_addr address_text ≡ some address
  pub read : r.reading ≡ line (stream_line address_text (ticker ∷ tickers) tail)
  pub socket : r.io.udp_error ≡ none
  pub write : r.io.write_error ≡ none

module _ (p : Platform) (q : QuoteService p) (service : IsService p q) where
  open q use {State, add_client, remove_client, find}
  open service use {IsReady, HasRoom, less_room, added, removed}

  starts_with_stream :
      (rest : Text)
      → (starts_with (codes "STREAM" ++ 32 ∷ rest) (codes "PING") ≡ false)
        × (starts_with (codes "STREAM" ++ 32 ∷ rest) (codes "STREAM ") ≡ true)
        × (is_empty (codes "STREAM" ++ 32 ∷ rest) ≡ false)
  unfolding starts_with is_empty
  starts_with_stream rest = (refl, refl, refl)

  on_message-stream :
      (io : Io p) (rest : Text) (s : State) (session : Session)
      → on_message p q io (codes "STREAM" ++ 32 ∷ rest) s session ≡ (
          handle_stream p q io (codes "STREAM" ++ 32 ∷ rest) s session >>= λ handled.
          some (propagate p q handled))
  unfolding on_message dispatch
  on_message-stream io rest s session = let (a, b, c) = starts_with_stream rest in rw (c, a, b)

  with_parts_ok :
      (io : Io p) (command a ticker : Text) (tickers : List Text) (address : p.SocketAddr)
      (s t : State) (session : Session) (id : ℕ)
      → p.parse_addr a ≡ some address
      → io.udp_error ≡ none
      → io.write_error ≡ none
      → add_client io.reads (ticker ∷ tickers) (send_datagram address) s ≡ some (t, ok id)
      → with_parts p q io (command ∷ a ∷ ticker ∷ tickers) s session
        ≡ some (
          t,
          record session {
            client_id = some id;
            written = session.written ++ codes "STREAM OK\n" ∷ [];
          },
          ok tt,
        )
  unfolding with_parts addressed bound registered reply write_all
  with_parts_ok io command a ticker tickers address s t session id parsed socket write e =
      ground arith

  on_message_ok :
      (io : Io p) (a ticker : Text) (tickers : List Text) (address : p.SocketAddr) (s t : State)
      (session : Session) (id : ℕ)
      → IsWord a
      → IsWord ticker
      → All IsWord tickers
      → p.parse_addr a ≡ some address
      → io.udp_error ≡ none
      → io.write_error ≡ none
      → add_client io.reads (ticker ∷ tickers) (send_datagram address) s ≡ some (t, ok id)
      → on_message p q io (codes "STREAM" ++ spaced (a ∷ ticker ∷ tickers)) s session
        ≡ some (
          t,
          record session {
            client_id = some id;
            written = session.written ++ codes "STREAM OK\n" ∷ [];
          },
          goes_on,
        )
  unfolding spaced handle_stream propagate
  on_message_ok io a ticker tickers address s t session id ha ht hs parsed socket write e =
      on_message-stream io (a ++ spaced (ticker ∷ tickers)) s session
      ∙ ap (λ parts. with_parts p q io parts s session >>= λ handled. some (propagate p q handled))
          (split_whitespace-spaced (codes "STREAM") (a ∷ ticker ∷ tickers) stream-IsWord
            (ha, (ht, hs)))
      ∙ ap (λ call. call >>= λ handled. some (propagate p q handled))
          (with_parts_ok io (codes "STREAM") a ticker tickers address s t session id parsed socket
            write e)

  -- On a quote server that keeps its contract, a command `STREAM` with an address that is parsed and at
  -- least one ticker is answered by `STREAM OK` and makes the connection go on; it registers, under a
  -- number that no client had, a started client with exactly these tickers, as they are written,
  -- whose callback sends to that address; this is the client of the connection from now on, and every
  -- other client stays as it is.
  pub stream_registers :
      (r : Round p) (i : IsStream p r) (n : ℕ) (s : State) (session : Session)
      → IsReady s
      → HasRoom (suc n) s
      → (t : State) × (id : ℕ) × (handle_round p q r s session
          ≡ some (
            t,
            record {
              client_id = some id;
              last_ping = r.now;
              written = session.written ++ codes "STREAM OK\n" ∷ [];
            },
            goes_on,
          ))
        × (find id s ≡ none)
        × (find id t ≡ some (new_client p (i.ticker ∷ i.tickers) (send_datagram i.address)))
        × SameBut p q id s t
        × IsReady t
        × HasRoom n t
  unfolding handle_round
  stream_registers r i n s session ready room =
      let (t, id, e, fresh, found, same, ready', room') =
        added r.io.reads (i.ticker ∷ i.tickers) (send_datagram i.address) n s ready room in
      (
        t,
        id,
        rw i.read (
            ap (λ msg. on_message p q r.io msg s (record session { last_ping = r.now }))
              (trim-spaced (codes "STREAM") (i.address_text ∷ i.ticker ∷ i.tickers) i.tail
                stream-IsWord (i.address_word, (i.ticker_word, i.ticker_words)) i.blank)
            ∙ on_message_ok r.io i.address_text i.ticker i.tickers i.address s t
                (record session { last_ping = r.now }) id i.address_word i.ticker_word
                i.ticker_words i.parsed i.socket i.write e),
        fresh,
        found,
        same,
        ready',
        room',
      )

  -- Fewer than three words, or an address that is not parsed.
  abbrev pub IsMalformed : List Text → Type 0
  IsMalformed (command ∷ address ∷ ticker ∷ tickers) = p.parse_addr address ≡ none
  IsMalformed _ = Unit {0}

  abbrev pub complaint : List Text → TcpServerError
  complaint (command ∷ address ∷ ticker ∷ tickers) = bad_address
  complaint _ = usage

  with_parts_malformed :
      (io : Io p) (parts : List Text) (s : State) (session : Session)
      → IsMalformed parts
      → with_parts p q io parts s session ≡ some (s, session, err (complaint parts))
  unfolding with_parts addressed
  with_parts_malformed io (command ∷ address ∷ ticker ∷ tickers) s session bad = rw bad
  with_parts_malformed io _ s session bad = refl

  starts_with-ping :
      (msg : Text)
      → starts_with msg (codes "STREAM ") ≡ true
      → (starts_with msg (codes "PING") ≡ false) × (is_empty msg ≡ false)
  unfolding starts_with is_empty
  starts_with-ping [] h = cc
  starts_with-ping (c ∷ msg) h = ground arith

  -- A message that begins as a command `STREAM` and has fewer than three words, or an address that is
  -- not parsed, ends the connection with an error: nothing is written to the stream, and neither the
  -- quote server nor the client of the connection is touched.
  pub stream_malformed :
      (io : Io p) (msg : Text) (s : State) (session : Session)
      → starts_with msg (codes "STREAM ") ≡ true
      → IsMalformed (split_whitespace msg)
      → on_message p q io msg s session
        ≡ some (s, session, returns (err (complaint (split_whitespace msg))))
  unfolding on_message dispatch handle_stream propagate
  stream_malformed io msg s session stream bad =
      let (not_ping, full) = starts_with-ping msg stream in
      rw (full, not_ping, stream, with_parts_malformed io (split_whitespace msg) s session bad)
