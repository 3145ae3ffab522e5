-- ===== src/Commands/Answers.antt =====
-- Servers that take a command apart and answer for what they read: what the proofs on the command
-- families share.
use glide_rust.Base.{Option}
use glide_rust.Base.Fallible.{◌>>=◌}
use glide_rust.Base.Io.{Io}
use glide_rust.Redis.{Value, Cmd}
use glide_rust.Error.{GlideError, GlideResult}
use glide_rust.Executor.{CommandExecutor}

-- A server by its reading of a command and its answers to requests; `P` is a response policy.
abbrev pub answering :
    (P : Type 0) {F O W Q : Type 0}
    → (Cmd → Option Q)
    → (Option Q → Io W GlideError (Value F O))
    → CommandExecutor F O P W
answering P read serve = record { execute_command = λ cmd routing. serve (read cmd) }

-- The answer to a request, decoded.
abbrev pub decoded :
    {F O W Q A : Type 0}
    → (Value F O → GlideResult A)
    → (Option Q → Io W GlideError (Value F O))
    → Option Q
    → Io W GlideError A
decoded decode serve asked w = let (r, w') = serve asked w in (r >>= decode, w')
