-- ===== src/Executor.antt =====
-- src/executor.rs: the seam through which every command of the extension traits is sent.
use glide_rust.Base.{Option, none, some, List}
use glide_rust.Base.Fallible.{◌>>=◌}
use glide_rust.Base.Io.{Io}
use glide_rust.Redis.{Value, Args, Cmd, each}
use glide_rust.Error.{GlideError, GlideResult}
use glide_rust.Routes.{Route, RoutingInfo, Topology, to_routing_info}

-- The trait `CommandExecutor`; `W` is the state of the world that a call may change.
pub record CommandExecutor (F O P W : Type 0) : Type 0 where
  pub execute_command : Cmd → Option (RoutingInfo P) → Io W GlideError (Value F O)

module _ {F O P W : Type 0} (client : CommandExecutor F O P W) where
  -- `decode(self.execute_command(cmd, None).await?)`
  abbrev pub call : {A : Type 0} → Cmd → (Value F O → GlideResult A) → Io W GlideError A
  call cmd decode w = let (r, w') = client.execute_command cmd none w in (r >>= decode, w')

  unfoldable pub custom_command : List Args → Io W GlideError (Value F O)
  custom_command args = client.execute_command (each args) none

  unfoldable pub custom_command_with_route :
      Topology P → List Args → Route → Io W GlideError (Value F O)
  custom_command_with_route topology args route =
      let cmd = each args in
      let routing = to_routing_info topology route (some cmd) in
      client.execute_command cmd (some routing)
