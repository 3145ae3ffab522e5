-- ===== src/Config/Urls.antt =====
-- When `GlideClusterClientConfiguration::from_urls` of src/config/cluster.rs accepts its URLs.
use glide_rust.Base.{
  Bytes, ascii, not, if◌then◌else◌, String, bytes_eq_sound, bytes_eq_refl, Bool, Bool-cases, true,
  Option, none, some, List, [], ◌∷◌, ◌++◌, map, append_assoc, append-nil, Result, ok, err, All, ◌≡◌,
  refl, ap, sym, ◌∙◌, subst, ◌↔◌, inl, inr, arith, ℤ, pos, negsuc,
}
use glide_rust.Base.Fallible.{◌>>=◌, given_ok, collect}
use glide_rust.Base.Int.{is_zero, ℤ_eq}
use glide_rust.Redis.{RedisError}
use glide_rust.Error.{configuration}
use glide_rust.Config.Types.{NodeAddress, TlsConfig, no_tls, secure_tls, insecure_tls}
use glide_rust.Config.Common.{
  new_common, set_tls, ConnectionInfo, from_redis_protocol, credentials_from_info,
}
use glide_rust.Config.Cluster.{
  GlideClusterClientConfiguration, opt_bytes_eq, tls_eq, require, Settings, check_first,
  match_first, read_url, read_urls, configured, finish, from_urls,
}

opt_bytes_eq_iff : (a b : Option Bytes) → (opt_bytes_eq a b ≡ true) ↔ (a ≡ b)
unfolding opt_bytes_eq
opt_bytes_eq_iff none none = (λ _. refl, λ _. refl)
opt_bytes_eq_iff (some a) (some b) =
    (λ h. ap some (bytes_eq_sound a b h), λ e. let same : a ≡ b = cc in rw same (bytes_eq_refl b))
opt_bytes_eq_iff none (some b) = (λ h. cc, λ h. cc)
opt_bytes_eq_iff (some a) none = (λ h. cc, λ h. cc)

tls_eq_iff : (a b : TlsConfig) → (tls_eq a b ≡ true) ↔ (a ≡ b)
unfolding tls_eq
tls_eq_iff no_tls no_tls = (λ _. refl, λ _. refl)
tls_eq_iff secure_tls secure_tls = (λ _. refl, λ _. refl)
tls_eq_iff insecure_tls insecure_tls = (λ _. refl, λ _. refl)
tls_eq_iff _ _ = (λ h. cc, λ h. cc)

ℤ_eq_iff : (a b : ℤ) → (ℤ_eq a b ≡ true) ↔ (a ≡ b)
ℤ_eq_iff (pos a) (pos b) = ground arith
ℤ_eq_iff (negsuc a) (negsuc b) = ground arith
ℤ_eq_iff (pos a) (negsuc b) = (λ h. cc, λ h. cc)
ℤ_eq_iff (negsuc a) (pos b) = (λ h. cc, λ h. cc)

is_zero_iff : (a : ℤ) → (is_zero a ≡ true) ↔ (a ≡ pos 0)
is_zero_iff (pos n) = ground arith
is_zero_iff (negsuc n) = (λ h. cc, λ h. cc)

-- A later URL says the same as the first one.
abbrev pub Agrees : Settings → Settings → Type 0
Agrees (first_tls, first) (tls, redis) =
    (redis.password ≡ first.password)
    × (redis.username ≡ first.username)
    × (redis.info_name ≡ first.info_name)
    × (redis.db ≡ first.db)
    × (tls ≡ first_tls)

require_all :
    (a b c d e : Bool) (m n o p q : String)
    → (do _ ← require a m; _ ← require b n; _ ← require c o; _ ← require d p; require e q) ≡ ok tt
    → (a ≡ true) × (b ≡ true) × (c ≡ true) × (d ≡ true) × (e ≡ true)
require_all a b c d e m n o p q h = ground arith

check_first_lem : (first s : Settings) → (check_first first s ≡ ok tt) ↔ Agrees first s
unfolding check_first
check_first_lem (first_tls, first) (tls, redis) =
    let password = opt_bytes_eq_iff redis.password first.password in
    let username = opt_bytes_eq_iff redis.username first.username in
    let name = opt_bytes_eq_iff redis.info_name first.info_name in
    let db = ℤ_eq_iff redis.db first.db in
    let tls_same = tls_eq_iff tls first_tls in
    (
      λ h.
          let (a, b, c, d, e) = require_all _ _ _ _ _ _ _ _ _ _ h in
          (password.0 a, username.0 b, name.0 c, db.0 d, tls_same.0 e),
      λ (a, b, c, d, e). rw (password.1 a, username.1 b, name.1 c, db.1 d, tls_same.1 e) refl,
    )

abbrev AllAgree : Settings → List (NodeAddress × Settings) → Type 0
AllAgree first rs = All (λ r. Agrees first r.1) rs

abbrev hosts : List (NodeAddress × Settings) → List NodeAddress
hosts rs = map (λ r. r.0) rs

abbrev pub IsConfigured : List NodeAddress → Settings → GlideClusterClientConfiguration → Type 0
IsConfigured addresses (tls, redis) cfg =
    (redis.db ≡ pos 0)
    × (cfg.common.addresses ≡ addresses)
    × (cfg.common.tls ≡ tls)
    × (cfg.common.protocol ≡ from_redis_protocol redis.info_protocol)
    × (cfg.common.client_name ≡ redis.info_name)
    × (cfg.common.credentials ≡ credentials_from_info redis.username redis.password)

finish_lem :
    (addresses : List NodeAddress) (first : Settings) (cfg : GlideClusterClientConfiguration)
    → finish (addresses, some first) ≡ ok cfg
    → (first.1.db ≡ pos 0) × (configured addresses first ≡ cfg)
unfolding finish
finish_lem addresses (tls, redis) cfg h = elim (Bool-cases (is_zero redis.db)) [
  | inl zero_db ↦
      let taken : finish (addresses, some (tls, redis)) ≡ ok (configured addresses (tls, redis)) =
        rw zero_db refl in
      ((is_zero_iff redis.db).0 zero_db, cc)
  | inr other_db ↦
      let refused =
        subst
          (λ b.
            (if not b
              then err (configuration (ascii "cluster deployments only support database 0"))
              else ok (configured addresses (tls, redis)))
            ≡ ok cfg)
          other_db h in
      cc
]

configured_lem :
    (addresses : List NodeAddress) (first : Settings)
    → first.1.db ≡ pos 0
    → IsConfigured addresses first (configured addresses first)
unfolding configured new_common set_tls
configured_lem addresses (tls, redis) h = (h, refl, refl, refl, refl, refl)

module _ {C : Type 0} where
  read_urls_sound :
      (urls : List (Result RedisError (ConnectionInfo C))) (acc : List NodeAddress)
      (first : Settings) (res : List NodeAddress × Option Settings)
      → read_urls acc (some first) urls ≡ ok res
      → (rs : List (NodeAddress × Settings)) × (collect read_url urls ≡ ok rs)
        × AllAgree first rs
        × (res ≡ (acc ++ hosts rs, some first))
  unfolding read_urls match_first collect
  read_urls_sound [] acc first res h =
      ([], refl, tt, rw (append-nil acc) (let e : (acc, some first) ≡ res = cc in sym e))
  read_urls_sound (url ∷ urls) acc first res h =
      given_ok (read_url url) _ h (λ (address, settings) read h1.
        given_ok (match_first (some first) settings) _ h1 (λ first' matched h2.
          given_ok (check_first first settings) _ matched (λ _ checked same.
            let same' : first' ≡ first = cc in
            let h3 = subst (λ s. read_urls (acc ++ address ∷ []) (some s) urls ≡ ok res) same' h2 in
            let (rs, all_read, agree, done) =
              read_urls_sound urls (acc ++ address ∷ []) first res h3 in
            ((
              (address, settings) ∷ rs,
              rw (read, all_read) refl,
              ((check_first_lem first settings).0 checked, agree),
              done ∙ ap (λ l. (l, some first)) (append_assoc acc (address ∷ []) (hosts rs)),
            )))))

  read_urls_complete :
      (urls : List (Result RedisError (ConnectionInfo C))) (acc : List NodeAddress)
      (first : Settings) (rs : List (NodeAddress × Settings))
      → collect read_url urls ≡ ok rs
      → AllAgree first rs
      → read_urls acc (some first) urls ≡ ok (acc ++ hosts rs, some first)
  unfolding read_urls match_first collect
  read_urls_complete [] acc first rs h agree =
      let e : [] ≡ rs = cc in rw (sym e, append-nil acc) refl
  read_urls_complete (url ∷ urls) acc first rs h agree =
      given_ok (read_url url) _ h (λ (address, settings) read h1.
        given_ok (collect read_url urls) _ h1 (λ ps all_read h2.
          let e : rs ≡ (address, settings) ∷ ps = cc in
          let agree' = subst (AllAgree first) e agree in
          let checked = (check_first_lem first settings).1 agree'.0 in
          let rest = read_urls_complete urls (acc ++ address ∷ []) first ps all_read agree'.1 in
          rw (e, read, checked)
            (rest ∙ ap (λ l. ok (l, some first)) (append_assoc acc (address ∷ []) (hosts ps)))))

  -- What the URLs must be for a configuration `cfg`, with the settings of the first.
  abbrev pub IsAccepted :
      List (Result RedisError (ConnectionInfo C)) → GlideClusterClientConfiguration → Type 0
  IsAccepted urls cfg =
      (address : NodeAddress) × (first : Settings) × (rs : List (NodeAddress × Settings)) × (collect
          read_url urls
        ≡ ok ((address, first) ∷ rs))
      × AllAgree first rs
      × IsConfigured (address ∷ hosts rs) first cfg

  -- The URLs are accepted only if there is one, each can be read, all agree with the first on the
  -- password, the user name, the client name, the database and the TLS mode, and the database is 0;
  -- then the addresses are those of the URLs in order, and all else is what the first URL says.
  pub from_urls-IsAccepted :
      (urls : List (Result RedisError (ConnectionInfo C))) (cfg : GlideClusterClientConfiguration)
      → from_urls urls ≡ ok cfg
      → IsAccepted urls cfg
  unfolding from_urls read_urls match_first collect finish
  from_urls-IsAccepted [] cfg h = let no_urls = h in cc
  from_urls-IsAccepted (url ∷ urls) cfg h =
      given_ok (read_urls [] none (url ∷ urls)) _ h (λ res looped finished.
        given_ok (read_url url) _ looped (λ (address, first) read h1.
          let (rs, all_read, agree, done) = read_urls_sound urls (address ∷ []) first res h1 in
          (let (zero_db, same) =
              finish_lem (address ∷ hosts rs) first cfg
                (subst (λ r. finish r ≡ ok cfg) done finished) in
            ((
              address,
              first,
              rs,
              rw (read, all_read) refl,
              agree,
              subst (IsConfigured (address ∷ hosts rs) first) same
                  (configured_lem (address ∷ hosts rs) first zero_db),
            )))))

  -- URLs that can be read, agree with the first and name database 0 are accepted.
  pub from_urls_accepts :
      (urls : List (Result RedisError (ConnectionInfo C))) (address : NodeAddress)
      (first : Settings) (rs : List (NodeAddress × Settings))
      → collect read_url urls ≡ ok ((address, first) ∷ rs)
      → AllAgree first rs
      → first.1.db ≡ pos 0
      → from_urls urls ≡ ok (configured (address ∷ hosts rs) first)
  unfolding from_urls read_urls match_first collect finish
  from_urls_accepts [] address first rs h agree zero_db = cc
  from_urls_accepts (url ∷ urls) address first rs h agree zero_db =
      given_ok (read_url url) _ h (λ r read h1.
        given_ok (collect read_url urls) _ h1 (λ ps all_read h2.
          let same : r ≡ (address, first) = cc in
          let rest : ps ≡ rs = cc in
          let all_rs : collect read_url urls ≡ ok rs = all_read ∙ ap ok rest in
          let looped = read_urls_complete urls (address ∷ []) first rs all_rs agree in
          let zero = (is_zero_iff first.1.db).1 zero_db in rw (read, same, looped, zero) refl))
