-- ===== src/Commands/Search.antt =====
-- src/commands/ft.rs: the commands of the search module.
use glide_rust.Base.{Bytes, Bool, none, List, ◌++◌}
use glide_rust.Base.Io.{Io}
use glide_rust.Redis.{Value, Redis, Args, kw, raw, each, flag}
use glide_rust.Error.{GlideError}
use glide_rust.Values.{to_bytes, to_unit}
use glide_rust.Executor.{CommandExecutor, call}
use glide_rust.Commands.Replies.{members_or_one}

module _ {F O P W : Type 0} (redis : Redis F O) (client : CommandExecutor F O P W) where
  unfoldable pub ft_create : Args → List Args → Io W GlideError (Unit {0})
  ft_create index args = call client (kw "FT.CREATE" ++ index ++ each args) to_unit

  unfoldable pub ft_dropindex : Args → Bool → Io W GlideError (Unit {0})
  ft_dropindex index delete_docs =
      call client (kw "FT.DROPINDEX" ++ index ++ flag delete_docs "DD") to_unit

  unfoldable pub ft_info : Args → Io W GlideError (Value F O)
  ft_info index = client.execute_command (kw "FT.INFO" ++ index) none

  unfoldable pub ft_list : Io W GlideError (List Bytes)
  ft_list = call client (kw "FT._LIST") (members_or_one (to_bytes redis))

  unfoldable pub ft_search : Args → Args → List Args → Io W GlideError (Value F O)
  ft_search index query args =
      client.execute_command (kw "FT.SEARCH" ++ index ++ query ++ each args) none

  unfoldable pub ft_aggregate : Args → Args → List Args → Io W GlideError (Value F O)
  ft_aggregate index query args =
      client.execute_command (kw "FT.AGGREGATE" ++ index ++ query ++ each args) none

  unfoldable pub ft_explain : Args → Args → Io W GlideError Bytes
  ft_explain index query = call client (kw "FT.EXPLAIN" ++ index ++ query) (to_bytes redis)

  unfoldable pub ft_explaincli : Args → Args → Io W GlideError (Value F O)
  ft_explaincli index query = client.execute_command (kw "FT.EXPLAINCLI" ++ index ++ query) none

  unfoldable pub ft_aliasadd : Args → Args → Io W GlideError (Unit {0})
  ft_aliasadd alias index = call client (kw "FT.ALIASADD" ++ alias ++ index) to_unit

  unfoldable pub ft_aliasdel : Args → Io W GlideError (Unit {0})
  ft_aliasdel alias = call client (kw "FT.ALIASDEL" ++ alias) to_unit

  unfoldable pub ft_aliasupdate : Args → Args → Io W GlideError (Unit {0})
  ft_aliasupdate alias index = call client (kw "FT.ALIASUPDATE" ++ alias ++ index) to_unit

  unfoldable pub ft_aliaslist : Io W GlideError (Value F O)
  ft_aliaslist = client.execute_command (kw "FT._ALIASLIST") none

  unfoldable pub ft_profile : Args → Bytes → Bool → List Args → Io W GlideError (Value F O)
  ft_profile index query_type limited args =
      client.execute_command
        (kw "FT.PROFILE"
          ++ index
          ++ raw query_type
          ++ flag limited "LIMITED"
          ++ kw "QUERY"
          ++ each args)
        none
