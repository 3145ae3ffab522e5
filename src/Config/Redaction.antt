-- ===== src/Config/Redaction.antt =====
-- The `Debug` instances of src/config/common.rs, which keep secrets out of what is printed.
use glide_rust.Base.{Bytes, ascii, Option, List, [], ◌∷◌, ◌++◌, ◌≡◌, refl, ap, length, map_option}
use glide_rust.Base.Int.{show_nat}
use glide_rust.Config.Types.{IamAuthConfig, ServerCredentials, ClientIdentity, with_password}

-- What `std::fmt` and the derived instance of `IamAuthConfig` print: a struct by its name and its
-- fields, an optional text, and an optional configuration.
pub record Formatter : Type 0 where
  pub debug_struct : Bytes → List (Bytes × Bytes) → Bytes
  pub debug_text : Bytes → Bytes
  pub debug_option : Option Bytes → Bytes
  pub debug_iam : Option IamAuthConfig → Bytes

module _ (f : Formatter) where
  -- `fmt` of `ServerCredentials`
  unfoldable pub credentials_fmt : ServerCredentials → Bytes
  credentials_fmt creds = f.debug_struct (ascii "ServerCredentials") (
      (ascii "username", f.debug_option creds.username)
      ∷ (ascii "password", f.debug_option (map_option (λ _. ascii "<redacted>") creds.password))
      ∷ (ascii "iam_config", f.debug_iam creds.iam_config)
      ∷ [])

  -- `fmt` of `ClientIdentity`
  unfoldable pub identity_fmt : ClientIdentity → Bytes
  unfolding show_nat
  identity_fmt identity = f.debug_struct (ascii "ClientIdentity") (
      (ascii "cert_pem", ascii "[" ++ show_nat (length identity.cert_pem) ++ ascii " bytes]")
      ∷ (ascii "key_pem", f.debug_text (ascii "<redacted>"))
      ∷ [])

  -- Nothing of a password or a private key is printed: credentials print alike whatever password is
  -- set, and identities whose certificates have the same length print alike whatever their keys are.
  pub redaction_lem :
      (creds : ServerCredentials) (password password' : Bytes) (identity identity' : ClientIdentity)
      → length identity.cert_pem ≡ length identity'.cert_pem
      → (credentials_fmt (with_password password creds)
          ≡ credentials_fmt (with_password password' creds))
        × (identity_fmt identity ≡ identity_fmt identity')
  unfolding credentials_fmt identity_fmt with_password
  redaction_lem creds password password' identity identity' same = (
    refl,
    ap
        (λ n. f.debug_struct (ascii "ClientIdentity") (
          (ascii "cert_pem", ascii "[" ++ show_nat n ++ ascii " bytes]")
          ∷ (ascii "key_pem", f.debug_text (ascii "<redacted>"))
          ∷ []))
        same,
  )
