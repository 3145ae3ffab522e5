-- ===== src/Commands/Hash/Expiry.antt =====
-- The nine commands on the expiry of hash fields of src/commands/hash.rs against a server that takes
-- them apart.
use glide_rust.Base.{
  ℕ, ℤ, pos, Bytes, ascii, bytes_eq, ◌==◌, ◌||◌, Bool, true, false, Option, none, some, List, [],
  ◌∷◌, ◌++◌, ◌≡◌, ap, ◌∙◌, arith, length, if◌then◌else◌, map_option,
}
use glide_rust.Redis.{Redis, Cmd, kw, raw, opt}
use glide_rust.Commands.Options.{
  ExpireOptions, has_no_expiry, has_existing_expiry, new_expiry_greater_than_current,
  new_expiry_less_than_current, expire_args,
}
use glide_rust.Commands.Replies.{counted}
use glide_rust.Commands.Replies.Laws.{singles, counted-singles}
use glide_rust.Commands.Hash.{hfield_expire_cmd}

-- The command, the key, the new expiry, its condition and the fields.
abbrev pub ExpiryRequest : Type 0
ExpiryRequest = Bytes × Bytes × Option ℤ × Option ExpireOptions × List Bytes

-- The commands that are given a new expiry; the others ask for one or remove it.
unfoldable pub takes_value : Bytes → Bool
unfolding ascii bytes_eq
takes_value name =
    bytes_eq name (ascii "HEXPIRE")
    || bytes_eq name (ascii "HPEXPIRE")
    || bytes_eq name (ascii "HEXPIREAT")
    || bytes_eq name (ascii "HPEXPIREAT")

unfoldable pub read_condition : Bytes → Option ExpireOptions
unfolding ascii bytes_eq
read_condition word =
    if bytes_eq word (ascii "NX")
    then some has_no_expiry
    else if bytes_eq word (ascii "XX")
    then some has_existing_expiry
    else if bytes_eq word (ascii "GT")
    then some new_expiry_greater_than_current
    else if bytes_eq word (ascii "LT")
    then some new_expiry_less_than_current
    else none

module _ (read_int : Bytes → Option ℤ) (read_number : Bytes → Option ℕ) where
  -- `FIELDS`, the number of the fields, and as many fields.
  unfoldable pub read_fields : List Bytes → Option (List Bytes)
  read_fields (word ∷ count ∷ fields) =
      if bytes_eq word (ascii "FIELDS")
      then elim (read_number count) [
        | none ↦ none
        | some n ↦ if n == length fields then some fields else none
      ]
      else none
  read_fields _ = none

  -- A condition, or none, and then the fields.
  unfoldable pub read_conditional : List Bytes → Option (Option ExpireOptions × List Bytes)
  unfolding read_fields read_condition
  read_conditional [] = none
  read_conditional (word ∷ words) = elim (read_condition word) [
    | none ↦ map_option (λ fields. (none, fields)) (read_fields (word ∷ words))
    | some c ↦ map_option (λ fields. (some c, fields)) (read_fields words)
  ]

  abbrev pub asked :
      Bytes → Bytes → Option ℤ → Option (Option ExpireOptions × List Bytes) → Option ExpiryRequest
  asked name key value rest = map_option (λ (c, fields). (name, key, value, c, fields)) rest

  abbrev pub asked_with :
      Bytes → Bytes → Option ℤ → Option (Option ExpireOptions × List Bytes) → Option ExpiryRequest
  asked_with name key none rest = none
  asked_with name key (some n) rest = asked name key (some n) rest

  -- The command, the key, the new expiry if the command takes one, and the rest.
  unfoldable pub read_expiry : Cmd → Option ExpiryRequest
  unfolding read_conditional takes_value
  read_expiry (name ∷ key ∷ value ∷ words) =
      if takes_value name
      then asked_with name key (read_int value) (read_conditional words)
      else asked name key none (read_conditional (value ∷ words))
  read_expiry _ = none

  module _ {F O : Type 0} (redis : Redis F O)
      (reads_int : (n : ℤ) → read_int (redis.int_arg n) ≡ some n) where
    module _ (fields : List Bytes)
        (reads_count : read_number (redis.int_arg (pos (length fields)))
          ≡ some (length fields)) where
      read_fields-counted :
          read_fields (ascii "FIELDS" ∷ counted redis (singles fields)) ≡ some fields
      unfolding read_fields bytes_eq ascii
      read_fields-counted =
          ap (λ l. read_fields (ascii "FIELDS" ∷ l)) (counted-singles redis fields)
          ∙ rw (reads_count, read_fields) (ground arith)

      read_conditional-counted :
          (option : Option ExpireOptions)
          → read_conditional
              (opt option expire_args ++ kw "FIELDS" ++ counted redis (singles fields))
            ≡ some (option, fields)
      unfolding read_conditional expire_args read_condition bytes_eq ascii
      read_conditional-counted none = ap (map_option (λ l. (none, l))) read_fields-counted
      read_conditional-counted (some has_no_expiry) =
          ap (map_option (λ l. (some has_no_expiry, l))) read_fields-counted
      read_conditional-counted (some has_existing_expiry) =
          ap (map_option (λ l. (some has_existing_expiry, l))) read_fields-counted
      read_conditional-counted (some new_expiry_greater_than_current) =
          ap (map_option (λ l. (some new_expiry_greater_than_current, l))) read_fields-counted
      read_conditional-counted (some new_expiry_less_than_current) =
          ap (map_option (λ l. (some new_expiry_less_than_current, l))) read_fields-counted

      pub read_expiry-valued :
          (name key : Bytes) (n : ℤ) (option : Option ExpireOptions)
          → takes_value name ≡ true
          → read_expiry (hfield_expire_cmd redis name (raw key) (some n) (singles fields) option)
            ≡ some (name, key, some n, option, fields)
      unfolding read_expiry hfield_expire_cmd
      read_expiry-valued name key n option h =
          rw (h, reads_int n)
            (ap (λ r. asked name key (some n) r) (read_conditional-counted option))

      pub read_expiry-plain :
          (name key : Bytes)
          → takes_value name ≡ false
          → read_expiry (hfield_expire_cmd redis name (raw key) none (singles fields) none)
            ≡ some (name, key, none, none, fields)
      unfolding read_expiry hfield_expire_cmd
      read_expiry-plain name key h =
          rw h (ap (λ r. asked name key none r) (read_conditional-counted none))
