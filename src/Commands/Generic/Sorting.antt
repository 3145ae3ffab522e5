-- ===== src/Commands/Generic/Sorting.antt =====
-- The sorts of src/commands/generic.rs against a server that takes them apart.
use glide_rust.Base.{
  ℤ, Bytes, ascii, bytes_eq, Bool, true, false, Option, none, some, List, [], ◌∷◌, ◌++◌, ◌≡◌, refl,
  sym, ap, ◌∙◌, if◌then◌else◌, map_option, append_assoc, append-nil,
}
use glide_rust.Base.Io.{Io}
use glide_rust.Error.{GlideError}
use glide_rust.Redis.{Value, Redis, Cmd, kw, raw, opt, flag}
use glide_rust.Values.{to_bytes, to_i64}
use glide_rust.Commands.Answers.{answering, decoded}
use glide_rust.Commands.Options.{Limit, OrderBy, ascending, descending, order_word}
use glide_rust.Commands.Replies.{items_or_one}
use glide_rust.Commands.Generic.{sort_args, sort, sort_ro, sort_store}

-- What follows the key: the limit, the order, whether to sort words, and where the result is stored.
abbrev pub Sorting : Type 0
Sorting = Option Limit × Option OrderBy × Bool × Option Bytes

-- The command, the key and the rest.
abbrev pub SortRequest : Type 0
SortRequest = Bytes × Bytes × Sorting

abbrev store_words : Option Bytes → List Bytes
store_words none = []
store_words (some destination) = kw "STORE" ++ raw destination

abbrev read_store : List Bytes → Option (Option Bytes)
read_store [] = some none
read_store (w ∷ d ∷ []) = if bytes_eq w (ascii "STORE") then some (some d) else none
read_store _ = none

unfoldable read_alpha : List Bytes → Option (Bool × Option Bytes)
read_alpha [] = some (false, none)
read_alpha (w ∷ words) =
    if bytes_eq w (ascii "ALPHA")
    then map_option (λ d. (true, d)) (read_store words)
    else map_option (λ d. (false, d)) (read_store (w ∷ words))

abbrev ordered :
    Option OrderBy → Option (Bool × Option Bytes) → Option (Option OrderBy × Bool × Option Bytes)
ordered order r = map_option (λ (alpha, d). (order, alpha, d)) r

unfoldable read_order : List Bytes → Option (Option OrderBy × Bool × Option Bytes)
unfolding read_alpha
read_order [] = some (none, false, none)
read_order (w ∷ words) =
    if bytes_eq w (ascii "ASC")
    then ordered (some ascending) (read_alpha words)
    else if bytes_eq w (ascii "DESC")
    then ordered (some descending) (read_alpha words)
    else ordered none (read_alpha (w ∷ words))

abbrev limited : Option Limit → Option (Option OrderBy × Bool × Option Bytes) → Option Sorting
limited limit r = map_option (λ (order, alpha, d). (limit, order, alpha, d)) r

module _ (read_int : Bytes → Option ℤ) where
  abbrev limited_by :
      Option ℤ → Option ℤ → Option (Option OrderBy × Bool × Option Bytes) → Option Sorting
  limited_by (some o) (some c) r = limited (some (record { offset = o; count = c })) r
  limited_by _ _ _ = none

  abbrev read_limit : List Bytes → Option Sorting
  read_limit (o ∷ c ∷ words) = limited_by (read_int o) (read_int c) (read_order words)
  read_limit _ = none

  unfoldable pub read_sorting : List Bytes → Option Sorting
  unfolding read_order
  read_sorting [] = some (none, none, false, none)
  read_sorting (w ∷ words) =
      if bytes_eq w (ascii "LIMIT") then read_limit words else limited none (read_order (w ∷ words))

  unfoldable pub read_sort : Cmd → Option SortRequest
  unfolding read_sorting
  read_sort (name ∷ key ∷ words) = map_option (λ s. (name, key, s)) (read_sorting words)
  read_sort _ = none

read_alpha-words :
    (alpha : Bool) (store : Option Bytes)
    → read_alpha (flag alpha "ALPHA" ++ store_words store) ≡ some (alpha, store)
unfolding read_alpha bytes_eq ascii
read_alpha-words true none = refl
read_alpha-words true (some d) = refl
read_alpha-words false none = refl
read_alpha-words false (some d) = refl

abbrev order_words : Option OrderBy → Bool → Option Bytes → List Bytes
order_words order alpha store = opt order order_word ++ flag alpha "ALPHA" ++ store_words store

read_order-words :
    (order : Option OrderBy) (alpha : Bool) (store : Option Bytes)
    → read_order (order_words order alpha store) ≡ some (order, alpha, store)
unfolding read_order order_word bytes_eq ascii
read_order-words (some ascending) alpha store =
    ap (ordered (some ascending)) (read_alpha-words alpha store)
read_order-words (some descending) alpha store =
    ap (ordered (some descending)) (read_alpha-words alpha store)
read_order-words none true none = refl
read_order-words none true (some d) = refl
read_order-words none false none = refl
read_order-words none false (some d) = refl

module _ {F O : Type 0} (redis : Redis F O) (read_int : Bytes → Option ℤ)
    (reads_int : (n : ℤ) → read_int (redis.int_arg n) ≡ some n) where
  read_sorting-args :
      (limit : Option Limit) (order : Option OrderBy) (alpha : Bool) (store : Option Bytes)
      → read_sorting read_int (sort_args redis order limit alpha ++ store_words store)
        ≡ some (limit, order, alpha, store)
  unfolding read_sorting sort_args order_word bytes_eq ascii
  read_sorting-args (some l) order alpha store =
      rw (reads_int l.offset, reads_int l.count)
        (ap (limited (some l)) (read_order-words order alpha store))
  read_sorting-args none (some ascending) alpha store =
      ap (limited none) (read_order-words (some ascending) alpha store)
  read_sorting-args none (some descending) alpha store =
      ap (limited none) (read_order-words (some descending) alpha store)
  read_sorting-args none none true store = ap (limited none) (read_order-words none true store)
  read_sorting-args none none false (some d) = refl
  read_sorting-args none none false none = refl

  -- `SORT` and `SORT_RO`, which store nothing.
  read_sorting-plain :
      (limit : Option Limit) (order : Option OrderBy) (alpha : Bool)
      → read_sorting read_int (sort_args redis order limit alpha) ≡ some (limit, order, alpha, none)
  read_sorting-plain limit order alpha =
      ap (read_sorting read_int) (sym (append-nil (sort_args redis order limit alpha)))
      ∙ read_sorting-args limit order alpha none

  -- `SORT` with `STORE`.
  read_sorting-stored :
      (limit : Option Limit) (order : Option OrderBy) (alpha : Bool) (destination : Bytes)
      → read_sorting read_int (sort_args redis order limit alpha ++ kw "STORE" ++ raw destination)
        ≡ some (limit, order, alpha, some destination)
  read_sorting-stored limit order alpha destination =
      ap (read_sorting read_int)
        (append_assoc (sort_args redis order limit alpha) (kw "STORE") (raw destination))
      ∙ read_sorting-args limit order alpha (some destination)

  -- The three sorts give what a server answers to exactly their command, key, limit, order and
  -- sorting of words, each given or not, and only `sort_store` stores the result, under its
  -- destination. The server reads back the numbers that are written.
  pub sort_lem :
      (P : Type 0) {W : Type 0} (serve : Option SortRequest → Io W GlideError (Value F O))
      (key destination : Bytes) (order : Option OrderBy) (limit : Option Limit) (alpha : Bool)
      → let server = answering P (read_sort read_int) serve in
        let sorted = λ (name : Bytes).
          decoded
            (items_or_one (to_bytes redis))
            serve
            (some (name, key, (limit, order, alpha, none))) in
        (sort redis server (raw key) order limit alpha ≡ sorted (ascii "SORT"))
        × (sort_ro redis server (raw key) order limit alpha ≡ sorted (ascii "SORT_RO"))
        × (sort_store redis server (raw key) (raw destination) order limit alpha
            ≡ decoded
                (to_i64 redis)
                serve
                (some (ascii "SORT", key, (limit, order, alpha, some destination))))
  unfolding sort sort_ro sort_store read_sort
  sort_lem P serve key destination order limit alpha =
      let sorted = λ (name : Bytes) (r : Option Sorting).
        decoded (items_or_one (to_bytes redis)) serve (map_option (λ s. (name, key, s)) r) in
      (
        ap (sorted (ascii "SORT")) (read_sorting-plain limit order alpha),
        ap (sorted (ascii "SORT_RO")) (read_sorting-plain limit order alpha),
        ap (λ r. decoded (to_i64 redis) serve (map_option (λ s. (ascii "SORT", key, s)) r))
            (read_sorting-stored limit order alpha destination),
      )
