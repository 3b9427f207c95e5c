-- ===== src/Errors.antt =====
-- src/errors.rs: the error types, their messages and the conversions of the `?` operator.
use rust_quote_streamer.Base.{◌++◌}
use rust_quote_streamer.Text.{Text, codes}
use rust_quote_streamer.Platform.{Platform}

-- The time error of the system clock has a message and nothing that the program looks at.
pub data QuoteGeneratorError (p : Platform) : Type 0 where
  invalid_volatility : p.F64 → QuoteGeneratorError p
  time_error : Text → QuoteGeneratorError p
  distribution_error : p.NormalError → QuoteGeneratorError p

unfoldable pub from_normal_error : (p : Platform) → p.NormalError → QuoteGeneratorError p
from_normal_error p e = distribution_error e

pub data QuoteServerError : Type 0 where
  invalid_config : Text → QuoteServerError
  initialization_error : Text → QuoteServerError
  update_quote_error : Text → QuoteServerError
  client_error : Text → QuoteServerError

unfoldable pub show_quote_server_error : QuoteServerError → Text
show_quote_server_error (invalid_config e) = codes "Invalid Quote Server config: " ++ e
show_quote_server_error (initialization_error e) = codes "Failed to initialize Quote Server: " ++ e
show_quote_server_error (update_quote_error e) = codes "Failed to update quotes: " ++ e
show_quote_server_error (client_error e) = codes "Failed to add/remove client: " ++ e

pub data ClientError : Type 0 where
  callback_failed : Text → ClientError
  initialization_error : Text → ClientError

unfoldable pub show_client_error : ClientError → Text
show_client_error (callback_failed e) = codes "Callback returned an error: " ++ e
show_client_error (ClientError.initialization_error e) =
    codes "Failed to initialize client loop: " ++ e

-- `impl From<ClientError> for QuoteServerError`
unfoldable pub from_client_error : ClientError → QuoteServerError
unfolding show_client_error
from_client_error e = client_error (show_client_error e)

pub data TcpServerError : Type 0 where
  bind_error : Text → TcpServerError
  accept_error : Text → TcpServerError
  client_io_error : Text → TcpServerError
  invalid_command : Text → TcpServerError
  quote_server_error : QuoteServerError → TcpServerError

pub data CliError : Type 0 where
  general_error : Text → CliError

-- `impl From<QuoteServerError> for CliError`
unfoldable pub from_quote_server_error : QuoteServerError → CliError
unfolding show_quote_server_error
from_quote_server_error e = general_error (show_quote_server_error e)
