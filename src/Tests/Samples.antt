-- ===== src/Tests/Samples.antt =====
-- A small instance of what the client takes from the fork, for the tests: floats are numbers.
use glide_rust.Base.{ℕ, ℤ, pos, negsuc, Bytes, ascii, false, [], ◌∷◌, Result, ok, err, refl}
use glide_rust.Redis.{
  Value, bulk_string, int, double, Redis, IsExact, RedisError, response_error, io_error,
}

abbrev pub Reply : Type 0
Reply = Value ℕ ℕ

abbrev pub wrong_type : RedisError
wrong_type = record { kind = response_error; message = ascii "wrong type"; is_timeout = false }

abbrev pub io_failure : RedisError
io_failure = record { kind = io_error; message = ascii "broken pipe"; is_timeout = false }

abbrev pub as_bytes : Reply → Result RedisError Bytes
as_bytes (bulk_string b) = ok b
as_bytes _ = err wrong_type

abbrev pub as_int : Reply → Result RedisError ℤ
as_int (int n) = ok n
as_int _ = err wrong_type

abbrev pub as_float : Reply → Result RedisError ℕ
as_float (double x) = ok x
as_float _ = err wrong_type

abbrev pub digits : ℤ → Bytes
digits (pos n) = n ∷ []
digits (negsuc n) = n ∷ n ∷ []

abbrev pub redis : Redis ℕ ℕ
redis = record {
  vec_of = as_bytes;
  string_of = as_bytes;
  i64_of = as_int;
  f64_of = as_float;
  int_arg = digits;
  float_arg = λ x. x ∷ [];
  show_float = λ x. x ∷ [];
  debug = λ v. ascii "reply";
  redis_error = λ kind text detail. record { kind = kind; message = text; is_timeout = false };
}

abbrev pub redis-IsExact : IsExact redis
redis-IsExact = record {
  vec_of-bulk_string = λ b. refl;
  string_of-bulk_string = λ b _. refl;
  i64_of-int = λ n. refl;
  f64_of-double = λ x. refl;
}
