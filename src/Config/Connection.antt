-- ===== src/Config/Connection.antt =====
-- From a connection URL to the request, for `from_connection_info` of src/config/standalone.rs.
use glide_rust.Base.{
  Bytes, true, false, Option, none, some, [], ◌∷◌, ok, err, ◌≡◌, refl, ap, sym, ◌↔◌, subst,
  if◌then◌else◌,
}
use glide_rust.Base.Fallible.{◌>>=◌, given_ok, ok_injective}
use glide_rust.Error.{configuration}
use glide_rust.Config.Types.{
  NodeAddress, TlsConfig, CoreProtocol, CoreAddress, AuthenticationInfo, TlsMode, protocol_to_core,
  address_to_core, credentials_to_core, tls_to_core, core_resp2, core_resp3, no_tls, secure_tls,
  insecure_tls, core_no_tls, core_secure_tls, core_insecure_tls,
}
use glide_rust.Config.Common.{
  ConnectionRequest, common_request, set_if, ConnectionInfo, from_redis_protocol,
  credentials_from_info, split_connection_addr, ConnectionAddr, tcp, tcp_tls, unix, new_common,
  set_tls,
}
use glide_rust.Config.Standalone.{GlideClientConfiguration, from_connection_info, to_request}

-- The user name and the password that are sent to the server, if any.
abbrev pub user_sent : Option AuthenticationInfo → Option Bytes
user_sent none = none
user_sent (some auth) = auth.auth_username

abbrev pub password_sent : Option AuthenticationInfo → Option Bytes
password_sent none = none
password_sent (some auth) = auth.auth_password

credentials_sent :
    (username password : Option Bytes)
    → (user_sent (set_if (credentials_from_info username password) credentials_to_core none)
        ≡ username)
      × (password_sent (set_if (credentials_from_info username password) credentials_to_core none)
          ≡ password)
unfolding credentials_from_info credentials_to_core
credentials_sent none none = (refl, refl)
credentials_sent none (some p) = (refl, refl)
credentials_sent (some u) none = (refl, refl)
credentials_sent (some u) (some p) = (refl, refl)

protocol_sent : (p : CoreProtocol) → protocol_to_core (from_redis_protocol p) ≡ p
unfolding protocol_to_core from_redis_protocol
protocol_sent core_resp2 = refl
protocol_sent core_resp3 = refl

module _ {C : Type 0} where
  -- The address and the TLS mode that an address of the fork stands for, and whether it has any.
  abbrev pub Names : ConnectionAddr C → CoreAddress → TlsMode → Type 0
  Names (tcp host port) a t =
      (a ≡ record { core_host = host; core_port = port }) × (t ≡ core_no_tls)
  Names (tcp_tls host port insecure none) a t =
      (a ≡ record { core_host = host; core_port = port })
      × (t ≡ (if insecure then core_insecure_tls else core_secure_tls))
  Names _ a t = ⊥

  abbrev pub IsMappable : ConnectionAddr C → Type 0
  IsMappable (tcp host port) = Unit
  IsMappable (tcp_tls host port insecure none) = Unit
  IsMappable _ = ⊥

  split-Names :
      (addr : ConnectionAddr C) (address : NodeAddress) (tls : TlsConfig)
      → split_connection_addr addr ≡ ok (address, tls)
      → Names addr (address_to_core address) (tls_to_core tls)
  unfolding split_connection_addr address_to_core tls_to_core
  split-Names (tcp host port) address tls h =
      let a : record { host = host; port = port } ≡ address = cc in
      let t : no_tls ≡ tls = cc in (ap address_to_core (sym a), ap tls_to_core (sym t))
  split-Names (tcp_tls host port true none) address tls h =
      let a : record { host = host; port = port } ≡ address = cc in
      let t : insecure_tls ≡ tls = cc in (ap address_to_core (sym a), ap tls_to_core (sym t))
  split-Names (tcp_tls host port false none) address tls h =
      let a : record { host = host; port = port } ≡ address = cc in
      let t : secure_tls ≡ tls = cc in (ap address_to_core (sym a), ap tls_to_core (sym t))
  split-Names (tcp_tls host port insecure (some params)) address tls h = cc
  split-Names (unix path) address tls h = cc

  -- What a connection's own settings must be in the request.
  abbrev pub IsRequested : {D : Type 0} → ConnectionInfo C → ConnectionRequest D → Type 0
  IsRequested info req =
      ((a : CoreAddress) × (t : TlsMode) × Names info.addr a t
        × (req.req_addresses ≡ a ∷ [])
        × (req.tls_mode ≡ some t))
      × (req.req_database_id ≡ info.redis.db)
      × (req.req_protocol ≡ some info.redis.info_protocol)
      × (req.req_client_name ≡ info.redis.info_name)
      × (user_sent req.authentication_info ≡ info.redis.username)
      × (password_sent req.authentication_info ≡ info.redis.password)
      × (req.cluster_mode_enabled ≡ false)

  -- The request of a standalone client that is configured from a connection URL asks for the one
  -- address, TLS mode, database, protocol, client name, user name and password of that URL.
  pub from_connection_info-to_request :
      {D : Type 0} (default : ConnectionRequest D) (info : ConnectionInfo C)
      (cfg : GlideClientConfiguration)
      → default.authentication_info ≡ none
      → from_connection_info (ok info) ≡ ok cfg
      → IsRequested info (to_request default cfg)
  unfolding from_connection_info to_request common_request new_common set_tls
  from_connection_info-to_request default info cfg no_auth h =
      given_ok (split_connection_addr info.addr) _ h (λ (address, tls) split built.
        let same = ok_injective built in
        subst (λ c. IsRequested info (to_request default c)) same
          ((
            (
              address_to_core address,
              tls_to_core tls,
              split-Names info.addr address tls split,
              refl,
              refl,
            ),
            refl,
            ap some (protocol_sent info.redis.info_protocol),
            refl,
            rw no_auth ((credentials_sent info.redis.username info.redis.password).0),
            rw no_auth ((credentials_sent info.redis.username info.redis.password).1),
            refl,
          )))

  refuses :
      (addr : ConnectionAddr C) (k : NodeAddress × TlsConfig → GlideClientConfiguration)
      → ((m : Bytes) × ((split_connection_addr addr >>= λ x. ok (k x)) ≡ err (configuration m)))
        ↔ (¬ IsMappable addr)
  unfolding split_connection_addr
  refuses (tcp host port) k = (λ (_, h) _. cc, λ h. absurd (h tt))
  refuses (tcp_tls host port insecure none) k = (λ (_, h) _. cc, λ h. absurd (h tt))
  refuses (tcp_tls host port insecure (some params)) k = (λ _ h. h, λ _. (_, refl))
  refuses (unix path) k = (λ _ h. h, λ _. (_, refl))

  -- Such a URL is refused, with a configuration error, exactly when it names a unix socket or
  -- carries TLS certificates.
  pub from_connection_info_refuses :
      (info : ConnectionInfo C)
      → ((m : Bytes) × (from_connection_info (ok info) ≡ err (configuration m)))
        ↔ (¬ IsMappable info.addr)
  unfolding from_connection_info split_connection_addr
  from_connection_info_refuses info = refuses info.addr _
