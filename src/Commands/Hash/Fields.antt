-- ===== src/Commands/Hash/Fields.antt =====
-- What `hsetex` and `hgetex` give, from a server that answers for the request that it reads.
use glide_rust.Base.{
  ℕ, pos, Bytes, ascii, bytes_eq, Option, none, some, List, [], ◌∷◌, ◌++◌, ◌≡◌, refl, ap, ◌∙◌,
  arith, length, map_option, append_assoc,
}
use glide_rust.Base.Io.{Io}
use glide_rust.Error.{GlideError}
use glide_rust.Redis.{Value, Redis, Args, kw, raw, opt}
use glide_rust.Values.{to_i64, to_opt_bytes}
use glide_rust.Streams.Commands.{field_args}
use glide_rust.Commands.Answers.{answering, decoded}
use glide_rust.Commands.Options.{
  ExpirySet, seconds, milliseconds, unix_seconds, unix_milliseconds, keep_existing, persist,
  expiry_args, HashFieldConditionalChange, only_if_all_exist, only_if_none_exist, hash_field_word,
  nat_of,
}
use glide_rust.Commands.Replies.{items_or_one}
use glide_rust.Commands.Replies.Laws.{singles, counted-singles}
use glide_rust.Commands.Hash.{hgetex_cmd, hsetex_cmd, hgetex, hsetex}
use glide_rust.Commands.Hash.Setting.{
  Form, setting, getting, accepted, set_request, get_request, SetRequest, GetRequest,
  read_condition, paired, read_expiry_set, read_counted, with_fields, read_hsetex, read_hgetex,
}

-- Fields and values that write one argument each.
abbrev pub raws : List (Bytes × Bytes) → List (Args × Args)
raws [] = []
raws ((f, v) ∷ fvs) = (raw f, raw v) ∷ raws fvs

length-raws : (fvs : List (Bytes × Bytes)) → length (raws fvs) ≡ length fvs
length-raws [] = refl
length-raws (fv ∷ fvs) = omega (arith, length-raws fvs)

paired-raws : (fvs : List (Bytes × Bytes)) → paired (field_args (raws fvs)) ≡ fvs
unfolding paired
paired-raws [] = refl
paired-raws ((f, v) ∷ fvs) = ap (λ l. (f, v) ∷ l) (paired-raws fvs)

fused :
    {A B C : Type 0} (f : A → B) (g : B → C) (o : Option A)
    → map_option g (map_option f o) ≡ map_option (λ a. g (f a)) o
fused f g none = refl
fused f g (some a) = refl

module _ {F O : Type 0} (redis : Redis F O) (read_number : Bytes → Option ℕ)
    (reads : (n : ℕ) → read_number (redis.int_arg (pos n)) ≡ some n) where
  -- The words from `FIELDS` on.
  abbrev counted_words : ℕ → List Bytes → List Bytes
  counted_words n words = kw "FIELDS" ++ (redis.int_arg (pos n) ∷ words)

  -- An expiry that the command has.
  read_expiry_set-words :
      (form : Form) (expiry : Option ExpirySet) (n : ℕ) (words : List Bytes)
      → accepted expiry form ≡ some expiry
      → read_expiry_set read_number form
          (opt expiry (expiry_args redis) ++ kw "FIELDS" ++ (redis.int_arg (pos n) ∷ words))
        ≡ some (expiry, counted_words n words)
  unfolding read_expiry_set expiry_args bytes_eq ascii
  read_expiry_set-words setting none n words h = refl
  read_expiry_set-words getting none n words h = refl
  read_expiry_set-words form (some (seconds v)) n words h = rw (reads v) refl
  read_expiry_set-words form (some (milliseconds v)) n words h = rw (reads v) refl
  read_expiry_set-words form (some (unix_seconds v)) n words h = rw (reads v) refl
  read_expiry_set-words form (some (unix_milliseconds v)) n words h = rw (reads v) refl
  read_expiry_set-words setting (some keep_existing) n words h = refl
  read_expiry_set-words getting (some persist) n words h = refl
  read_expiry_set-words getting (some keep_existing) n words h = cc
  read_expiry_set-words setting (some persist) n words h = cc

  read_counted-words :
      {A : Type 0} (group : List Bytes → List A) (xs : List A) (words : List Bytes)
      → group words ≡ xs
      → read_counted read_number group (counted_words (length xs) words) ≡ some xs
  unfolding read_counted bytes_eq ascii
  read_counted-words group xs words grouped = rw (reads (length xs), grouped) (ground arith)

  -- The fields after an expiry, as the two commands write them.
  abbrev fields_words : Option ExpirySet → ℕ → List Bytes → List Bytes
  fields_words expiry n words =
      opt expiry (expiry_args redis) ++ kw "FIELDS" ++ (redis.int_arg (pos n) ∷ words)

  module _ {A : Type 0} (group : List Bytes → List A) (xs : List A) (words : List Bytes)
      (grouped : group words ≡ xs) where
    read_fields-accepted :
        (form : Form) (expiry : Option ExpirySet)
        → accepted expiry form ≡ some expiry
        → with_fields read_number group
            (read_expiry_set read_number form (fields_words expiry (length xs) words))
          ≡ some (expiry, xs)
    unfolding with_fields
    read_fields-accepted form expiry h =
        ap (with_fields read_number group) (read_expiry_set-words form expiry (length xs) words h)
        ∙ ap (map_option (λ l. (expiry, l))) (read_counted-words group xs words grouped)

    -- An expiry that the command does not have is no request.
    read_fields-words :
        (form : Form) (expiry : Option ExpirySet)
        → with_fields read_number group
            (read_expiry_set read_number form (fields_words expiry (length xs) words))
          ≡ map_option (λ e. (e, xs)) (accepted expiry form)
    unfolding with_fields read_counted read_expiry_set expiry_args bytes_eq ascii
    read_fields-words form none = read_fields-accepted form none refl
    read_fields-words form (some (seconds v)) = read_fields-accepted form (some (seconds v)) refl
    read_fields-words form (some (milliseconds v)) =
        read_fields-accepted form (some (milliseconds v)) refl
    read_fields-words form (some (unix_seconds v)) =
        read_fields-accepted form (some (unix_seconds v)) refl
    read_fields-words form (some (unix_milliseconds v)) =
        read_fields-accepted form (some (unix_milliseconds v)) refl
    read_fields-words setting (some keep_existing) =
        read_fields-accepted setting (some keep_existing) refl
    read_fields-words getting (some persist) = read_fields-accepted getting (some persist) refl
    read_fields-words getting (some keep_existing) = refl
    read_fields-words setting (some persist) = refl

  read_hgetex-cmd :
      (key : Bytes) (fields : List Bytes) (expiry : Option ExpirySet)
      → read_hgetex read_number (hgetex_cmd redis (raw key) (singles fields) expiry)
        ≡ get_request key (map_option (λ e. (e, fields)) (accepted expiry getting))
  unfolding read_hgetex hgetex_cmd bytes_eq ascii
  read_hgetex-cmd key fields expiry =
      ap
        (λ l. get_request key (
          with_fields read_number (λ fs. fs)
            (read_expiry_set read_number getting
              (opt expiry (expiry_args redis) ++ kw "FIELDS" ++ l))))
        (counted-singles redis fields)
      ∙ ap (get_request key) (read_fields-words (λ fs. fs) fields fields refl getting expiry)

  -- The words of `HSETEX` after its condition.
  after_condition :
      (fvs : List (Bytes × Bytes)) (expiry : Option ExpirySet)
      → with_fields read_number paired (
          read_expiry_set read_number setting (
            opt expiry (expiry_args redis)
            ++ kw "FIELDS"
            ++ nat_of redis (length (raws fvs))
            ++ field_args (raws fvs)))
        ≡ map_option (λ e. (e, fvs)) (accepted expiry setting)
  after_condition fvs expiry = rw (length-raws fvs) (
      ap (λ l. with_fields read_number paired (read_expiry_set read_number setting l))
        (append_assoc (opt expiry (expiry_args redis) ++ kw "FIELDS") (nat_of redis (length fvs))
          (field_args (raws fvs)))
      ∙ read_fields-words paired fvs (field_args (raws fvs)) (paired-raws fvs) setting expiry)

  -- Without a condition, an expiry or `FIELDS` comes first.
  no_condition :
      (expiry : Option ExpirySet) (a b : List Bytes)
      → read_condition (opt expiry (expiry_args redis) ++ kw "FIELDS" ++ a ++ b)
        ≡ (none, opt expiry (expiry_args redis) ++ kw "FIELDS" ++ a ++ b)
  unfolding read_condition expiry_args bytes_eq ascii
  no_condition none a b = refl
  no_condition (some (seconds v)) a b = refl
  no_condition (some (milliseconds v)) a b = refl
  no_condition (some (unix_seconds v)) a b = refl
  no_condition (some (unix_milliseconds v)) a b = refl
  no_condition (some keep_existing) a b = refl
  no_condition (some persist) a b = refl

  -- What is made of a condition and of what follows it.
  abbrev requested : Bytes → Option HashFieldConditionalChange × List Bytes → Option SetRequest
  requested key (condition, rest) =
      set_request key condition
        (with_fields read_number paired (read_expiry_set read_number setting rest))

  read_hsetex-cmd :
      (key : Bytes) (fvs : List (Bytes × Bytes)) (condition : Option HashFieldConditionalChange)
      (expiry : Option ExpirySet)
      → read_hsetex read_number (hsetex_cmd redis (raw key) (raws fvs) condition expiry)
        ≡ set_request key condition (map_option (λ e. (e, fvs)) (accepted expiry setting))
  unfolding read_hsetex hsetex_cmd read_condition hash_field_word bytes_eq ascii
  read_hsetex-cmd key fvs none expiry =
      ap (requested key)
        (no_condition expiry (nat_of redis (length (raws fvs))) (field_args (raws fvs)))
      ∙ ap (set_request key none) (after_condition fvs expiry)
  read_hsetex-cmd key fvs (some only_if_all_exist) expiry =
      ap (set_request key (some only_if_all_exist)) (after_condition fvs expiry)
  read_hsetex-cmd key fvs (some only_if_none_exist) expiry =
      ap (set_request key (some only_if_none_exist)) (after_condition fvs expiry)

  -- Where a server reads back the numbers that are written, `hsetex` and `hgetex` give what it answers
  -- to exactly their own command with the key, the condition, the expiry, absent or in any of the
  -- forms that the command has, and the fields, each with its value, in order. The server cannot read
  -- an expiry that the command does not have: `PERSIST` for `HSETEX`, and `KEEPTTL` for `HGETEX`.
  pub hash_fields_lem :
      (P : Type 0) {W : Type 0} (serve_set : Option SetRequest → Io W GlideError (Value F O))
      (serve_get : Option GetRequest → Io W GlideError (Value F O)) (key : Bytes)
      (field_values : List (Bytes × Bytes)) (fields : List Bytes)
      (condition : Option HashFieldConditionalChange) (expiry : Option ExpirySet)
      → (hsetex redis
            (answering P (read_hsetex read_number) serve_set)
            (raw key)
            (raws field_values)
            condition
            expiry
          ≡ decoded
              (to_i64 redis)
              serve_set
              (map_option (λ e. (key, condition, e, field_values)) (accepted expiry setting)))
        × (hgetex redis
              (answering P (read_hgetex read_number) serve_get)
              (raw key)
              (singles fields)
              expiry
            ≡ decoded
                (items_or_one (to_opt_bytes redis))
                serve_get
                (map_option (λ e. (key, e, fields)) (accepted expiry getting)))
  unfolding hsetex hgetex
  hash_fields_lem P serve_set serve_get key field_values fields condition expiry = (
    ap (decoded (to_i64 redis) serve_set) (
        read_hsetex-cmd key field_values condition expiry
        ∙ fused (λ e. (e, field_values)) (λ (e, fs). (key, condition, e, fs))
            (accepted expiry setting)),
    ap (decoded (items_or_one (to_opt_bytes redis)) serve_get) (
        read_hgetex-cmd key fields expiry
        ∙ fused (λ e. (e, fields)) (λ (e, fs). (key, e, fs)) (accepted expiry getting)),
  )
