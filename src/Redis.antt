-- ===== src/Redis.antt =====
-- What the client takes from the `redis` fork and from `glide_core`, which are git dependencies and
-- not part of this repository: the replies, the errors, the built command, and the conversions as
-- a record of functions. `F` stands for `f64`, and `O` for what the client never looks into.
use glide_rust.Base.{
  ℤ, Bytes, ascii, Result, ok, Option, none, some, List, [], ◌∷◌, ◌++◌, Bool, ◌≡◌, refl, ap, ℕ, All,
  ◌<◌, String, true, false,
}

-- `redis::Value`, by the constructors that the client names; `other` is any further one.
mutual
  pub data Value (F O : Type 0) : Type 0 where
    nil : Value F O
    okay : Value F O
    int : ℤ → Value F O
    double : F → Value F O
    boolean : Bool → Value F O
    bulk_string : Bytes → Value F O
    simple_string : Bytes → Value F O
    verbatim_string : O → Bytes → Value F O
    array : Values F O → Value F O
    set : Values F O → Value F O
    map : Pairs F O → Value F O
    other : O → Value F O

  -- `Vec<Value>`
  pub data Values (F O : Type 0) : Type 0 where
    end : Values F O
    more : Value F O → Values F O → Values F O

  -- `Vec<(Value, Value)>`
  pub data Pairs (F O : Type 0) : Type 0 where
    stop : Pairs F O
    pair : Value F O → Value F O → Pairs F O → Pairs F O

-- The two vectors as lists, and back.
module _ {F O : Type 0} where
  abbrev pub elems : Values F O → List (Value F O)
  elems end = []
  elems (more v vs) = v ∷ elems vs

  abbrev pub vec : List (Value F O) → Values F O
  vec [] = end
  vec (v ∷ vs) = more v (vec vs)

  abbrev pub entries : Pairs F O → List (Value F O × Value F O)
  entries stop = []
  entries (pair k v ps) = (k, v) ∷ entries ps

  abbrev pub pairs : List (Value F O × Value F O) → Pairs F O
  pairs [] = stop
  pairs ((k, v) ∷ ps) = pair k v (pairs ps)

  pub elems-vec : (vs : List (Value F O)) → elems (vec vs) ≡ vs
  elems-vec [] = refl
  elems-vec (v ∷ vs) = ap (λ l. v ∷ l) (elems-vec vs)

  pub entries-pairs : (ps : List (Value F O × Value F O)) → entries (pairs ps) ≡ ps
  entries-pairs [] = refl
  entries-pairs ((k, v) ∷ ps) = ap (λ l. (k, v) ∷ l) (entries-pairs ps)

-- `redis::ErrorKind`, by the kinds that the client names.
pub data ErrorKind : Type 0 where
  io_error client_error exec_abort_error circuit_breaker_open : ErrorKind
  invalid_client_config no_script_error response_error : ErrorKind
  other_kind : ℕ → ErrorKind

-- `redis::RedisError`, by what the client asks of it: `kind`, `to_string`, `is_timeout`.
pub record RedisError : Type 0 where
  pub kind : ErrorKind
  pub message : Bytes
  pub is_timeout : Bool

-- `err.kind() == ErrorKind::NoScriptError`
abbrev pub is_no_script : ErrorKind → Bool
is_no_script no_script_error = true
is_no_script _ = false

-- `glide_core::client::ConnectionError`; `other_failure` carries what `to_string` gives.
pub data ConnectionError : Type 0 where
  timed_out : ConnectionError
  bad_configuration other_failure : Bytes → ConnectionError

-- What a value of a type with `ToRedisArgs` writes, and a built `redis::Cmd`: the arguments in
-- order. Appending is `Cmd::arg`.
abbrev pub Args : Type 0
Args = List Bytes

abbrev pub Cmd : Type 0
Cmd = List Bytes

-- One argument that is a literal, or bytes at hand.
abbrev pub kw : String → Args
kw s = ascii s ∷ []

abbrev pub raw : Bytes → Args
raw b = b ∷ []

-- `for x in xs { cmd.arg(x); }`
abbrev pub each : List Args → Args
each [] = []
each (a ∷ xs) = a ++ each xs

-- `if let Some(x) = o { … }`
abbrev pub opt : {A : Type 0} → Option A → (A → Args) → Args
opt none f = []
opt (some a) f = f a

-- `if b { cmd.arg(word); }`
abbrev pub flag : Bool → String → Args
flag true s = kw s
flag false s = []

-- The conversions of the fork, and the float formatting of the standard library.
pub record Redis (F O : Type 0) : Type 0 where
  -- `from_owned_redis_value` at `Vec<u8>`, `String`, `i64` and `f64`
  pub vec_of : Value F O → Result RedisError Bytes
  pub string_of : Value F O → Result RedisError Bytes
  pub i64_of : Value F O → Result RedisError ℤ
  pub f64_of : Value F O → Result RedisError F
  -- the one argument that `ToRedisArgs` writes for an integer and for a float
  pub int_arg : ℤ → Bytes
  pub float_arg : F → Bytes
  -- `f64::to_string`, and `{:?}` of a reply
  pub show_float : F → Bytes
  pub debug : Value F O → Bytes
  -- `RedisError::from((kind, description, detail))`
  pub redis_error : ErrorKind → Bytes → Bytes → RedisError

-- What the fork documents of the conversions: they are exact on the replies that carry the type
-- itself, and a bulk string of ASCII bytes is a `String`.
pub record IsExact {F O : Type 0} (redis : Redis F O) : Type 0 where
  pub vec_of-bulk_string : (b : Bytes) → redis.vec_of (bulk_string b) ≡ ok b
  pub string_of-bulk_string :
      (b : Bytes) → All (λ c. c < 128) b → redis.string_of (bulk_string b) ≡ ok b
  pub i64_of-int : (n : ℤ) → redis.i64_of (int n) ≡ ok n
  pub f64_of-double : (x : F) → redis.f64_of (double x) ≡ ok x
