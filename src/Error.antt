-- ===== src/Error.antt =====
-- src/error.rs: the client's error type and how the errors of the layers below map into it.
pub mod Laws
use glide_rust.Base.{Bytes, ascii, Bool, Result, ◌++◌, if◌then◌else◌}
use glide_rust.Redis.{
  ErrorKind, io_error, client_error, exec_abort_error, circuit_breaker_open, invalid_client_config,
  RedisError, ConnectionError, timed_out, bad_configuration, other_failure,
}

pub data GlideError : Type 0 where
  closing configuration connection exec_abort request timeout circuit_breaker : Bytes → GlideError

-- `crate::error::Result`
abbrev pub GlideResult : Type 0 → Type 0
GlideResult A = Result GlideError A

unfoldable pub class_name : GlideError → Bytes
class_name (closing _) = ascii "ClosingError"
class_name (configuration _) = ascii "ConfigurationError"
class_name (connection _) = ascii "ConnectionError"
class_name (exec_abort _) = ascii "ExecAbortError"
class_name (request _) = ascii "RequestError"
class_name (timeout _) = ascii "TimeoutError"
class_name (circuit_breaker _) = ascii "CircuitBreakerError"

unfoldable pub message : GlideError → Bytes
message (closing m) = m
message (configuration m) = m
message (connection m) = m
message (exec_abort m) = m
message (request m) = m
message (timeout m) = m
message (circuit_breaker m) = m

-- The `#[error("…")]` attributes.
unfoldable pub display : GlideError → Bytes
display (closing m) = ascii "ClosingError: " ++ m
display (configuration m) = ascii "ConfigurationError: " ++ m
display (connection m) = ascii "ConnectionError: " ++ m
display (exec_abort m) = ascii "ExecAbortError: " ++ m
display (request m) = ascii "RequestError: " ++ m
display (timeout m) = ascii "TimeoutError: " ++ m
display (circuit_breaker m) = ascii "CircuitBreakerError: " ++ m

-- The two branches on `err.is_timeout()`.
abbrev timeout_or : (Bytes → GlideError) → RedisError → GlideError
timeout_or other err = if err.is_timeout then timeout err.message else other err.message

-- The `match err.kind()`.
abbrev by_kind : ErrorKind → RedisError → GlideError
by_kind io_error err = timeout_or connection err
by_kind client_error err = timeout_or connection err
by_kind exec_abort_error err = exec_abort err.message
by_kind circuit_breaker_open err = circuit_breaker err.message
by_kind invalid_client_config err = configuration err.message
by_kind _ err = timeout_or request err

-- `From<RedisError>`
unfoldable pub from_redis_error : RedisError → GlideError
from_redis_error err = by_kind err.kind err

-- `From<glide_core::client::ConnectionError>`
unfoldable pub from_connection_error : ConnectionError → GlideError
from_connection_error timed_out = timeout (ascii "connection attempt timed out")
from_connection_error (bad_configuration msg) = configuration msg
from_connection_error (other_failure text) = connection text
