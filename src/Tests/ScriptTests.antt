-- ===== src/Tests/ScriptTests.antt =====
-- Scripts against a server that remembers the last script.
use glide_rust.Base.{
  ℕ, Bytes, ascii, bytes_eq, false, Option, none, some, List, [], ◌∷◌, ok, err, ◌≡◌, refl,
  if◌then◌else◌, inl,
}
use glide_rust.Base.Io.{Io}
use glide_rust.Redis.{nil, bulk_string, RedisError, no_script_error}
use glide_rust.Script.{ScriptInvocation, new, prepare_invoke, evalsha_cmd, eval_cmd, invoke_async}
use glide_rust.Script.Server.{ScriptServer, answer, runs, invoke_async-runs}
use glide_rust.Script.Wire.{
  by_hash, by_code, read_script, apply_steps, key_step, arg_step, BuildStep, read_script-cmd,
}
use glide_rust.Script.{script_invoke_async}
use glide_rust.Sync.Calls.{invoke, script_invoke, invoke-invoke_async}
use glide_rust.Tests.Samples.{Reply, redis, as_bytes}

abbrev no_script : RedisError
no_script = record { kind = no_script_error; message = ascii "NOSCRIPT"; is_timeout = false }

-- The server's world is the script that it remembers, which stands for its own hash; running one
-- answers with its code, but the empty one ends with a refusal.
abbrev run : Bytes → List Bytes → List Bytes → Io Bytes RedisError Reply
run [] keys args w = (err no_script, w)
run (c ∷ code) keys args w = (ok (bulk_string (c ∷ code)), w)

abbrev server : ScriptServer ℕ ℕ Bytes
server = record {
  find = λ hash w. if bytes_eq hash w then some w else none;
  store = λ code w. code;
  run = run;
  refusal = no_script;
  other = λ cmd w. (ok nil, w);
}

abbrev one_digit : Bytes → Option ℕ
one_digit (n ∷ []) = some n
one_digit _ = none

abbrev greet : ScriptInvocation
greet = record {
  script = record { code = ascii "return 1"; hash = ascii "return 1" };
  args = ascii "a" ∷ [];
  keys = ascii "k" ∷ [];
}

greet-fresh : server.find greet.script.hash (ascii "return 2") ≡ none
unfolding bytes_eq ascii
greet-fresh = refl

invoke_async_example :
    invoke_async redis (answer server one_digit) as_bytes greet (ascii "return 2")
    ≡ runs server as_bytes greet (ascii "return 2")
invoke_async_example =
    invoke_async-runs redis server as_bytes one_digit greet (ascii "return 2") refl
      (inl greet-fresh) refl

abbrev steps : List BuildStep
steps = arg_step (ascii "a" ∷ []) ∷ key_step (ascii "k" ∷ []) ∷ []

read_script_example :
    (read_script one_digit
        (evalsha_cmd redis (apply_steps steps (prepare_invoke (new (λ c. c) (ascii "x")))))
      ≡ some (by_hash (new (λ c. c) (ascii "x")).hash (ascii "k" ∷ []) (ascii "a" ∷ [])))
    × (read_script one_digit
          (eval_cmd redis (apply_steps steps (prepare_invoke (new (λ c. c) (ascii "x")))))
        ≡ some (by_code (new (λ c. c) (ascii "x")).code (ascii "k" ∷ []) (ascii "a" ∷ [])))
read_script_example = read_script-cmd redis one_digit steps (new (λ c. c) (ascii "x")) refl

abbrev unknown_script : ScriptInvocation
unknown_script = prepare_invoke (new (λ code. code) (ascii "return 2"))

invoke_example :
    (invoke redis (answer server one_digit) as_bytes unknown_script []
      ≡ invoke_async redis (answer server one_digit) as_bytes unknown_script [])
    × (script_invoke redis (answer server one_digit) as_bytes unknown_script.script []
        ≡ script_invoke_async redis (answer server one_digit) as_bytes unknown_script.script [])
invoke_example =
    invoke-invoke_async redis (answer server one_digit) as_bytes unknown_script
      unknown_script.script []
