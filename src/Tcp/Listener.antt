-- ===== src/Tcp/Listener.antt =====
-- `TcpServer::new` and `TcpServer::start` of src/tcp_server.rs.
use rust_quote_streamer.Base.{
  ◌≡◌, sym, ap, ◌∙◌, append-nil, append_assoc, List, [], ◌∷◌, ◌++◌, map, Option, none, some, Result,
  ok, err,
}
use rust_quote_streamer.Text.{Text}
use rust_quote_streamer.Errors.{TcpServerError, bind_error, accept_error}

-- What `TcpListener::bind` gives: an error, or the listener, of which the model keeps the address.
unfoldable pub new : Option Text → Text → Result TcpServerError Text
new none address = ok address
new (some e) address = err (bind_error e)

-- The loop over what `accept` gives, a peer or an error: the peers whose handler threads were spawned,
-- and the error with which the function returns; it waits for more as long as there is none.
unfoldable pub start :
    {Peer : Type 0} → List (Result Text Peer) → List Peer → List Peer × Option TcpServerError
start [] spawned = (spawned, none)
start (ok peer ∷ accepted) spawned = start accepted (spawned ++ peer ∷ [])
start (err e ∷ accepted) spawned = (spawned, some (accept_error e))

start-append :
    {Peer : Type 0} (peers spawned : List Peer) (rest : List (Result Text Peer))
    → start (map ok peers ++ rest) spawned ≡ start rest (spawned ++ peers)
unfolding start
start-append [] spawned rest = rw append-nil
start-append (peer ∷ peers) spawned rest =
    start-append peers (spawned ++ peer ∷ []) rest
    ∙ ap (start rest) (append_assoc spawned (peer ∷ []) peers)

-- Every peer that is accepted gets its thread, in the order of arrival, and the function does not
-- return while peers arrive; at the first error of `accept`, whatever would come after it, the
-- function returns that error, and the threads that were spawned are those of the peers before it.
pub start_lem :
    {Peer : Type 0} (peers : List Peer) (e : Text) (rest : List (Result Text Peer))
    → (start (map ok peers) [] ≡ (peers, none))
      × (start (map ok peers ++ err e ∷ rest) [] ≡ (peers, some (accept_error e)))
unfolding start
start_lem peers e rest = (
  ap (λ l. start l []) (sym (append-nil (map ok peers))) ∙ start-append peers [] [],
  start-append peers [] (err e ∷ rest),
)
