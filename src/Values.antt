-- ===== src/Values.antt =====
-- src/value.rs: replies into typed values.
pub mod Laws
use glide_rust.Base.{
  ℤ, Bytes, ascii, Bool, not, Option, none, some, Result, ok, err, map_err, if◌then◌else◌,
}
use glide_rust.Base.Fallible.{map_ok}
use glide_rust.Base.Int.{is_zero, show_int}
use glide_rust.Redis.{
  Value, nil, okay, int, double, boolean, bulk_string, simple_string, verbatim_string, array, set,
  map, other, Redis, RedisError,
}
use glide_rust.Error.{GlideError, GlideResult, from_redis_error}

-- `value::from_value`, over the conversion at the wanted type.
abbrev pub from_value : {A : Type 0} → Result RedisError A → GlideResult A
from_value r = map_err from_redis_error r

module _ {F O : Type 0} (redis : Redis F O) where
  unfoldable pub bytes_from_value : Value F O → GlideResult Bytes
  unfolding show_int
  bytes_from_value (bulk_string b) = ok b
  bytes_from_value (simple_string s) = ok s
  bytes_from_value (verbatim_string _ text) = ok text
  bytes_from_value okay = ok (ascii "OK")
  bytes_from_value (int i) = ok (show_int i)
  bytes_from_value (double f) = ok (redis.show_float f)
  bytes_from_value (boolean b) = ok (if b then ascii "1" else ascii "0")
  bytes_from_value v = from_value (redis.vec_of v)

  unfoldable pub to_bytes : Value F O → GlideResult Bytes
  unfolding bytes_from_value
  to_bytes v = bytes_from_value v

  unfoldable pub to_opt_bytes : Value F O → GlideResult (Option Bytes)
  unfolding bytes_from_value
  to_opt_bytes nil = ok none
  to_opt_bytes v = map_ok some (bytes_from_value v)

  unfoldable pub to_string : Value F O → GlideResult Bytes
  unfolding show_int
  to_string (simple_string s) = ok s
  to_string (verbatim_string _ text) = ok text
  to_string okay = ok (ascii "OK")
  to_string (int i) = ok (show_int i)
  to_string (double f) = ok (redis.show_float f)
  to_string v = from_value (redis.string_of v)

  unfoldable pub to_opt_string : Value F O → GlideResult (Option Bytes)
  unfolding to_string
  to_opt_string nil = ok none
  to_opt_string v = map_ok some (to_string v)

  unfoldable pub to_i64 : Value F O → GlideResult ℤ
  to_i64 v = from_value (redis.i64_of v)

  unfoldable pub to_f64 : Value F O → GlideResult F
  to_f64 v = from_value (redis.f64_of v)

  unfoldable pub to_opt_f64 : Value F O → GlideResult (Option F)
  to_opt_f64 nil = ok none
  to_opt_f64 v = map_ok some (from_value (redis.f64_of v))

  unfoldable pub to_bool : Value F O → GlideResult Bool
  to_bool (boolean b) = ok b
  to_bool (int i) = ok (not (is_zero i))
  to_bool v = map_ok (λ i. not (is_zero i)) (from_value (redis.i64_of v))

-- `to_unit`: any reply will do.
unfoldable pub to_unit : {F O : Type 0} → Value F O → GlideResult (Unit {0})
to_unit v = ok tt
