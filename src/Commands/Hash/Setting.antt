-- ===== src/Commands/Hash/Setting.antt =====
-- `hsetex` and `hgetex` of src/commands/hash.rs against a server that takes them apart.
use glide_rust.Base.{
  ℕ, Bytes, ascii, bytes_eq, ◌==◌, Option, none, some, List, [], ◌∷◌, length, if◌then◌else◌,
  map_option,
}
use glide_rust.Redis.{Cmd}
use glide_rust.Commands.Options.{
  ExpirySet, seconds, milliseconds, unix_seconds, unix_milliseconds, keep_existing, persist,
  HashFieldConditionalChange, only_if_all_exist, only_if_none_exist,
}

-- What `HSETEX` and `HGETEX` ask for.
abbrev pub SetRequest : Type 0
SetRequest = Bytes × Option HashFieldConditionalChange × Option ExpirySet × List (Bytes × Bytes)

abbrev pub GetRequest : Type 0
GetRequest = Bytes × Option ExpirySet × List Bytes

-- The two commands; each has one expiry that takes no number, and does not have that of the other.
pub data Form : Type 0 where
  setting getting : Form

abbrev untimed : Form → Bytes → Option ExpirySet
untimed setting word = if bytes_eq word (ascii "KEEPTTL") then some keep_existing else none
untimed getting word = if bytes_eq word (ascii "PERSIST") then some persist else none

abbrev pub accepted : Option ExpirySet → Form → Option (Option ExpirySet)
accepted (some persist) setting = none
accepted (some keep_existing) getting = none
accepted expiry form = some expiry

-- A condition, and what follows it.
unfoldable pub read_condition : List Bytes → Option HashFieldConditionalChange × List Bytes
read_condition [] = (none, [])
read_condition (word ∷ words) =
    if bytes_eq word (ascii "FXX")
    then (some only_if_all_exist, words)
    else if bytes_eq word (ascii "FNX")
    then (some only_if_none_exist, words)
    else (none, word ∷ words)

-- The fields with their values, two words each.
unfoldable pub paired : List Bytes → List (Bytes × Bytes)
paired (f ∷ v ∷ words) = (f, v) ∷ paired words
paired _ = []

abbrev or_none : Option ExpirySet → Bytes → List Bytes → Option (Option ExpirySet × List Bytes)
or_none none word words = some (none, word ∷ words)
or_none expiry word words = some (expiry, words)

abbrev pub set_request :
    Bytes
    → Option HashFieldConditionalChange
    → Option (Option ExpirySet × List (Bytes × Bytes))
    → Option SetRequest
set_request key condition r = map_option (λ (expiry, fields). (key, condition, expiry, fields)) r

abbrev pub get_request : Bytes → Option (Option ExpirySet × List Bytes) → Option GetRequest
get_request key r = map_option (λ (expiry, fields). (key, expiry, fields)) r

module _ (read_number : Bytes → Option ℕ) where
  abbrev timed : (ℕ → ExpirySet) → Bytes → List Bytes → Option (Option ExpirySet × List Bytes)
  timed unit count words = map_option (λ n. (some (unit n), words)) (read_number count)

  -- An expiry, and what follows it. One that takes a number is followed by it.
  unfoldable pub read_expiry_set : Form → List Bytes → Option (Option ExpirySet × List Bytes)
  read_expiry_set form (word ∷ count ∷ words) =
      if bytes_eq word (ascii "EX")
      then timed seconds count words
      else if bytes_eq word (ascii "PX")
      then timed milliseconds count words
      else if bytes_eq word (ascii "EXAT")
      then timed unix_seconds count words
      else if bytes_eq word (ascii "PXAT")
      then timed unix_milliseconds count words
      else or_none (untimed form word) word (count ∷ words)
  read_expiry_set form _ = none

  -- `FIELDS`, a number, and as many fields or as many pairs.
  abbrev checked : {A : Type 0} → List A → Option ℕ → Option (List A)
  checked xs none = none
  checked xs (some n) = if n == length xs then some xs else none

  unfoldable pub read_counted : {A : Type 0} → (List Bytes → List A) → List Bytes → Option (List A)
  read_counted group (word ∷ count ∷ words) =
      if bytes_eq word (ascii "FIELDS") then checked (group words) (read_number count) else none
  read_counted group _ = none

  unfoldable pub with_fields :
      {A : Type 0}
      → (List Bytes → List A)
      → Option (Option ExpirySet × List Bytes)
      → Option (Option ExpirySet × List A)
  unfolding read_counted
  with_fields group none = none
  with_fields group (some (expiry, words)) =
      map_option (λ xs. (expiry, xs)) (read_counted group words)

  unfoldable pub read_hsetex : Cmd → Option SetRequest
  unfolding read_condition read_expiry_set with_fields paired
  read_hsetex (name ∷ key ∷ words) =
      let (condition, rest) = read_condition words in
      if bytes_eq name (ascii "HSETEX")
      then set_request key condition (with_fields paired (read_expiry_set setting rest))
      else none
  read_hsetex _ = none

  unfoldable pub read_hgetex : Cmd → Option GetRequest
  unfolding read_expiry_set with_fields
  read_hgetex (name ∷ key ∷ words) =
      if bytes_eq name (ascii "HGETEX")
      then get_request key (with_fields (λ fields. fields) (read_expiry_set getting words))
      else none
  read_hgetex _ = none
