-- ===== src/Error/Laws.antt =====
-- What the conversion of errors keeps, for src/error.rs.
use glide_rust.Base.{◌≡◌, refl, ◌↔◌, true, ascii, ◌++◌, arith}
use glide_rust.Redis.{
  ErrorKind, io_error, exec_abort_error, circuit_breaker_open, invalid_client_config, RedisError,
}
use glide_rust.Error.{
  GlideError, closing, timeout, class_name, message, display, by_kind, from_redis_error,
}

-- The kinds that are mapped before a timeout is looked for.
abbrev pub IsSpecial : ErrorKind → Type 0
IsSpecial exec_abort_error = Unit
IsSpecial circuit_breaker_open = Unit
IsSpecial invalid_client_config = Unit
IsSpecial _ = ⊥

by_kind_message : (k : ErrorKind) (e : RedisError) → message (by_kind k e) ≡ e.message
unfolding message
by_kind_message io_error e = ground arith
by_kind_message _ e = ground arith

by_kind_timeout :
    (k : ErrorKind) (e : RedisError)
    → (by_kind k e ≡ timeout e.message) ↔ ((¬ IsSpecial k) × (e.is_timeout ≡ true))
by_kind_timeout io_error e = ground arith
by_kind_timeout _ e = ground arith

-- Converting a server or connection error keeps its message, and gives a timeout exactly when the
-- error says it is one and its kind is not an aborted transaction, an open circuit breaker or a bad
-- client configuration.
pub from_redis_error_lem :
    (e : RedisError)
    → (message (from_redis_error e) ≡ e.message)
      × ((from_redis_error e ≡ timeout e.message) ↔ ((¬ IsSpecial e.kind) × (e.is_timeout ≡ true)))
unfolding from_redis_error
from_redis_error_lem e = (by_kind_message e.kind e, by_kind_timeout e.kind e)

-- The displayed text of an error is its class name, a colon, a space and its message.
pub display_lem : (e : GlideError) → display e ≡ class_name e ++ ascii ": " ++ message e
unfolding display class_name message ascii
display_lem (closing m) = refl
display_lem _ = refl
