-- ===== src/Streams/Adding.antt =====
-- A server's reading of the commands of src/commands/stream.rs that add to a stream and trim it.
pub mod Laws
use glide_rust.Base.{
  ℤ, Bytes, ascii, bytes_eq, Bool, true, false, not, Option, none, some, List, [], ◌∷◌, ◌++◌, map,
  ◌≡◌, refl, ap, ◌∙◌, if◌then◌else◌, map_option, append_assoc,
}
use glide_rust.Base.Io.{Io}
use glide_rust.Error.{GlideError}
use glide_rust.Redis.{Value, Redis, Args, Cmd, raw, flag}
use glide_rust.Values.{to_i64, to_opt_string}
use glide_rust.Commands.Answers.{answering, decoded}
use glide_rust.Streams.Options.{
  StreamTrimStrategy, by_max_len, by_min_id, StreamTrimOptions, StreamAddOptions, trim_args,
  add_args, opt_int,
}
use glide_rust.Streams.Commands.{field_args, xadd, xadd_options, xtrim_maxlen, xtrim_minid}

-- What an `XADD` asks for, and what an `XTRIM` does.
pub record AddRequest : Type 0 where
  pub key : Bytes
  pub creating : Bool
  pub trimming : Option StreamTrimOptions
  pub id : Bytes
  pub fields : List (Bytes × Bytes)

abbrev pub TrimRequest : Type 0
TrimRequest = Bytes × StreamTrimOptions

-- Fields that are one argument each, and so are their values.
abbrev pub singles : List (Bytes × Bytes) → List (Args × Args)
singles fields = map (λ (f, v). (raw f, raw v)) fields

-- An id that is no word of the options, and a threshold that is no sign before one.
abbrev pub IsId : Bytes → Type 0
IsId id =
    (bytes_eq id (ascii "NOMKSTREAM") ≡ false)
    × (bytes_eq id (ascii "MAXLEN") ≡ false)
    × (bytes_eq id (ascii "MINID") ≡ false)
    × (bytes_eq id (ascii "LIMIT") ≡ false)

abbrev pub IsThreshold : Bytes → Type 0
IsThreshold t = (bytes_eq t (ascii "=") ≡ false) × (bytes_eq t (ascii "~") ≡ false)

abbrev pub trim_by : StreamTrimStrategy → Bool → Bytes → Option ℤ → StreamTrimOptions
trim_by strategy exact threshold limit = record {
  strategy = strategy;
  exact = exact;
  threshold = threshold;
  limit = limit;
}

unfoldable read_fields : List Bytes → Option (List (Bytes × Bytes))
read_fields [] = some []
read_fields (f ∷ v ∷ words) = map_option (λ fs. (f, v) ∷ fs) (read_fields words)
read_fields _ = none

abbrev read_creating : List Bytes → Bool × List Bytes
read_creating [] = (true, [])
read_creating (w ∷ words) =
    if bytes_eq w (ascii "NOMKSTREAM") then (false, words) else (true, w ∷ words)

module _ (read_int : Bytes → Option ℤ) where
  unfoldable read_limit : List Bytes → Option (Option ℤ × List Bytes)
  read_limit (w ∷ n ∷ words) =
      if bytes_eq w (ascii "LIMIT")
      then map_option (λ i. (some i, words)) (read_int n)
      else some (none, w ∷ n ∷ words)
  read_limit words = some (none, words)

  abbrev limited :
      StreamTrimStrategy
      → Bool
      → Bytes
      → Option (Option ℤ × List Bytes)
      → Option (Option StreamTrimOptions × List Bytes)
  limited s exact t r = map_option (λ (limit, rest). (some (trim_by s exact t limit), rest)) r

  -- From the threshold on, and from the sign before it on.
  abbrev read_threshold :
      StreamTrimStrategy → Bool → List Bytes → Option (Option StreamTrimOptions × List Bytes)
  read_threshold s exact [] = none
  read_threshold s exact (t ∷ words) = limited s exact t (read_limit words)

  abbrev read_method :
      StreamTrimStrategy → List Bytes → Option (Option StreamTrimOptions × List Bytes)
  read_method s [] = none
  read_method s (w ∷ words) =
      if bytes_eq w (ascii "=")
      then read_threshold s true words
      else if bytes_eq w (ascii "~")
      then read_threshold s false words
      else read_threshold s true (w ∷ words)

  unfoldable read_trim : List Bytes → Option (Option StreamTrimOptions × List Bytes)
  unfolding read_limit
  read_trim [] = some (none, [])
  read_trim (w ∷ words) =
      if bytes_eq w (ascii "MAXLEN")
      then read_method by_max_len words
      else if bytes_eq w (ascii "MINID")
      then read_method by_min_id words
      else some (none, w ∷ words)

  -- The id and the fields after the options.
  abbrev finish : Bytes → Bool → Option (Option StreamTrimOptions × List Bytes) → Option AddRequest
  finish key creating (some (trim, id ∷ words)) =
      map_option
        (λ fs. record { key = key; creating = creating; trimming = trim; id = id; fields = fs })
        (read_fields words)
  finish key creating _ = none

  unfoldable pub read_xadd : Cmd → Option AddRequest
  unfolding read_trim read_fields
  read_xadd (name ∷ key ∷ words) =
      let (creating, rest) = read_creating words in
      if bytes_eq name (ascii "XADD") then finish key creating (read_trim rest) else none
  read_xadd _ = none

  abbrev trimmed : Bytes → Option (Option StreamTrimOptions × List Bytes) → Option TrimRequest
  trimmed key (some (some trim, [])) = some (key, trim)
  trimmed key _ = none

  unfoldable pub read_xtrim : Cmd → Option TrimRequest
  unfolding read_trim
  read_xtrim (name ∷ key ∷ words) =
      if bytes_eq name (ascii "XTRIM") then trimmed key (read_trim words) else none
  read_xtrim _ = none

  read_fields-args :
      (fields : List (Bytes × Bytes)) → read_fields (field_args (singles fields)) ≡ some fields
  unfolding read_fields
  read_fields-args [] = refl
  read_fields-args ((f, v) ∷ fields) = rw (read_fields-args fields) refl

  module _ {F O : Type 0} (redis : Redis F O)
      (reads_int : (n : ℤ) → read_int (redis.int_arg n) ≡ some n) (id : Bytes)
      (fresh : IsId id) where
    read_limit-words :
        (limit : Option ℤ) (words : List Bytes)
        → read_limit (opt_int redis limit (ascii "LIMIT" ∷ []) ++ id ∷ words)
          ≡ some (limit, id ∷ words)
    unfolding read_limit bytes_eq ascii
    read_limit-words (some n) words = rw (reads_int n) refl
    read_limit-words none [] = refl
    read_limit-words none (w ∷ words) = rw fresh.3 refl

    trim_words :
        (s : StreamTrimStrategy) (exact : Bool) (t : Bytes) (l : Option ℤ) (words : List Bytes)
        → read_trim (trim_args redis (trim_by s exact t l) ++ id ∷ words)
          ≡ some (some (trim_by s exact t l), id ∷ words)
    unfolding read_trim trim_args bytes_eq ascii
    trim_words by_max_len true t l words = ap (limited by_max_len true t) (read_limit-words l words)
    trim_words by_max_len false t l words =
        ap (limited by_max_len false t) (read_limit-words l words)
    trim_words by_min_id true t l words = ap (limited by_min_id true t) (read_limit-words l words)
    trim_words by_min_id false t l words = ap (limited by_min_id false t) (read_limit-words l words)

    keeps_creating :
        (s : StreamTrimStrategy) (exact : Bool) (t : Bytes) (l : Option ℤ) (words : List Bytes)
        → read_creating (trim_args redis (trim_by s exact t l) ++ words)
          ≡ (true, trim_args redis (trim_by s exact t l) ++ words)
    unfolding trim_args bytes_eq ascii
    keeps_creating by_max_len exact t l words = refl
    keeps_creating by_min_id exact t l words = refl

    -- The words after the key, up to the fields.
    read_xadd-words :
        (key : Bytes) (make : Bool) (trim : Option StreamTrimOptions) (words : List Bytes)
        → read_xadd (
            ascii "XADD"
            ∷ key
            ∷ (add_args redis (record { make_stream = make; trim = trim }) ++ id ∷ words))
          ≡ finish key make (some (trim, id ∷ words))
    unfolding read_xadd add_args bytes_eq ascii read_trim
    read_xadd-words key true none words = rw (fresh.0, fresh.1, fresh.2) refl
    read_xadd-words key false none words = rw (fresh.1, fresh.2) refl
    read_xadd-words key true (some t) words =
        ap (λ (creating, rest). finish key creating (read_trim rest))
          (keeps_creating t.strategy t.exact t.threshold t.limit (id ∷ words))
        ∙ ap (finish key true) (trim_words t.strategy t.exact t.threshold t.limit words)
    read_xadd-words key false (some t) words =
        ap (finish key false) (trim_words t.strategy t.exact t.threshold t.limit words)

    pub read_xadd-args :
        (key : Bytes) (options : StreamAddOptions) (fields : List (Bytes × Bytes))
        → read_xadd
            (ascii "XADD" ∷ key ∷ (add_args redis options ++ id ∷ field_args (singles fields)))
          ≡ some (record {
            key = key;
            creating = options.make_stream;
            trimming = options.trim;
            id = id;
            fields = fields;
          })
    read_xadd-args key options fields =
        read_xadd-words key options.make_stream options.trim (field_args (singles fields))
        ∙ ap
            (map_option (λ fs. record {
              key = key;
              creating = options.make_stream;
              trimming = options.trim;
              id = id;
              fields = fs;
            }))
            (read_fields-args fields)

  module _ (key threshold : Bytes) (unsigned : IsThreshold threshold) where
    pub read_xtrim-maxlen :
        (approximate : Bool)
        → read_xtrim
            (ascii "XTRIM" ∷ key ∷ ascii "MAXLEN" ∷ (flag approximate "~" ++ threshold ∷ []))
          ≡ some (key, trim_by by_max_len (not approximate) threshold none)
    unfolding read_xtrim bytes_eq ascii read_limit
    read_xtrim-maxlen true = refl
    read_xtrim-maxlen false = rw (unsigned.0, unsigned.1) refl

    pub read_xtrim-minid :
        (approximate : Bool)
        → read_xtrim
            (ascii "XTRIM" ∷ key ∷ ascii "MINID" ∷ (flag approximate "~" ++ threshold ∷ []))
          ≡ some (key, trim_by by_min_id (not approximate) threshold none)
    unfolding read_xtrim bytes_eq ascii read_limit
    read_xtrim-minid true = refl
    read_xtrim-minid false = rw (unsigned.0, unsigned.1) refl
