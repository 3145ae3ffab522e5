-- ===== src/Streams/Claiming.antt =====
-- A server's reading of the claims of src/commands/stream.rs.
pub mod Laws
use glide_rust.Base.{
  ℤ, Bytes, ascii, bytes_eq, String, Bool, true, false, ◌||◌, Option, none, some, List, [], ◌∷◌,
  ◌++◌, All, ◌≡◌, refl, sym, ap, ◌∙◌, if◌then◌else◌, append_assoc, append-nil,
}
use glide_rust.Base.Io.{Io}
use glide_rust.Error.{GlideError}
use glide_rust.Redis.{Value, Redis, Cmd, kw, raw, opt, flag}
use glide_rust.Commands.Answers.{answering, decoded}
use glide_rust.Streams.{parse_entries, collect_strings}
use glide_rust.Streams.Options.{StreamClaimOptions, claim_args}
use glide_rust.Streams.Commands.{xclaim, xclaim_justid}

-- What follows the ids, and what a claim asks for: the last part says whether only ids are wanted.
abbrev pub ClaimOptions : Type 0
ClaimOptions = Option ℤ × Option ℤ × Option ℤ × Bool × Bool

pub record ClaimRequest : Type 0 where
  pub key : Bytes
  pub group : Bytes
  pub consumer : Bytes
  pub min_idle : Option ℤ
  pub ids : List Bytes
  pub options : ClaimOptions

abbrev pub asked : Option StreamClaimOptions → Bool → ClaimOptions
asked none justid = (none, none, none, false, justid)
asked (some o) justid = (o.idle, o.idle_unix_time, o.retry_count, o.is_force, justid)

unfoldable pub is_option : Bytes → Bool
is_option w =
    bytes_eq w (ascii "IDLE")
    || bytes_eq w (ascii "TIME")
    || bytes_eq w (ascii "RETRYCOUNT")
    || bytes_eq w (ascii "FORCE")
    || bytes_eq w (ascii "JUSTID")

-- The ids are the words before the first option.
unfoldable pub read_ids : List Bytes → List Bytes × List Bytes
unfolding is_option
read_ids [] = ([], [])
read_ids (w ∷ words) =
    let (ids, rest) = read_ids words in if is_option w then ([], w ∷ words) else (w ∷ ids, rest)

abbrev read_flag : String → List Bytes → Bool × List Bytes
read_flag word [] = (false, [])
read_flag word (w ∷ words) = if bytes_eq w (ascii word) then (true, words) else (false, w ∷ words)

abbrev at_end : Option ℤ → Option ℤ → Option ℤ → Bool → Bool × List Bytes → Option ClaimOptions
at_end idle time retry force (justid, []) = some (idle, time, retry, force, justid)
at_end idle time retry force _ = none

-- `FORCE`, then `JUSTID`.
unfoldable read_flags : Option ℤ → Option ℤ → Option ℤ → List Bytes → Option ClaimOptions
read_flags idle time retry words =
    let (force, rest) = read_flag "FORCE" words in
    at_end idle time retry force (read_flag "JUSTID" rest)

module _ (read_int : Bytes → Option ℤ) where
  abbrev read_number : String → List Bytes → Option ℤ × List Bytes
  read_number word (w ∷ n ∷ words) =
      if bytes_eq w (ascii word) then (read_int n, words) else (none, w ∷ n ∷ words)
  read_number word words = (none, words)

  unfoldable read_retry : Option ℤ → Option ℤ → List Bytes → Option ClaimOptions
  unfolding read_flags
  read_retry idle time words =
      let (retry, rest) = read_number "RETRYCOUNT" words in read_flags idle time retry rest

  unfoldable pub read_time : Option ℤ → List Bytes → Option ClaimOptions
  unfolding read_retry
  read_time idle words = let (time, rest) = read_number "TIME" words in read_retry idle time rest

  unfoldable pub read_options : List Bytes → Option ClaimOptions
  unfolding read_time
  read_options words = let (idle, rest) = read_number "IDLE" words in read_time idle rest

  abbrev pub claiming :
      Bytes → Bytes → Bytes → Bytes → List Bytes → Option ClaimOptions → Option ClaimRequest
  claiming key group consumer min_idle ids none = none
  claiming key group consumer min_idle ids (some options) = some (record {
    key = key;
    group = group;
    consumer = consumer;
    min_idle = read_int min_idle;
    ids = ids;
    options = options;
  })

  unfoldable pub read_xclaim : Cmd → Option ClaimRequest
  unfolding read_ids read_options
  read_xclaim (name ∷ key ∷ group ∷ consumer ∷ min_idle ∷ words) =
      let (ids, rest) = read_ids words in
      if bytes_eq name (ascii "XCLAIM")
      then claiming key group consumer min_idle ids (read_options rest)
      else none
  read_xclaim _ = none

-- Ids that are no words of the options.
abbrev pub AreIds : List Bytes → Type 0
AreIds ids = All (λ id. is_option id ≡ false) ids

abbrev pub justid_words : Bool → List Bytes
justid_words justid = flag justid "JUSTID"

abbrev pub tail_words : Bool → Bool → List Bytes
tail_words force justid = flag force "FORCE" ++ justid_words justid

read_flags-words :
    (idle time retry : Option ℤ) (force justid : Bool)
    → read_flags idle time retry (tail_words force justid) ≡ some (idle, time, retry, force, justid)
unfolding read_flags bytes_eq ascii
read_flags-words idle time retry true true = refl
read_flags-words idle time retry true false = refl
read_flags-words idle time retry false true = refl
read_flags-words idle time retry false false = refl

module _ {F O : Type 0} (redis : Redis F O) (read_int : Bytes → Option ℤ)
    (reads_int : (n : ℤ) → read_int (redis.int_arg n) ≡ some n) where
  abbrev pub number_words : String → Option ℤ → List Bytes
  number_words word o = opt o (λ n. kw word ++ raw (redis.int_arg n))

  abbrev pub retry_words : Option ℤ → Bool → Bool → List Bytes
  retry_words retry force justid =
      number_words "RETRYCOUNT" retry ++ flag force "FORCE" ++ justid_words justid

  read_retry-words :
      (idle time retry : Option ℤ) (force justid : Bool)
      → read_retry read_int idle time (retry_words retry force justid)
        ≡ some (idle, time, retry, force, justid)
  unfolding read_retry bytes_eq ascii
  read_retry-words idle time (some n) force justid =
      rw (reads_int n) (read_flags-words idle time (some n) force justid)
  read_retry-words idle time none true true = refl
  read_retry-words idle time none true false = refl
  read_retry-words idle time none false true = refl
  read_retry-words idle time none false false = refl

  abbrev pub time_words : Option ℤ → Option ℤ → Bool → Bool → List Bytes
  time_words time retry force justid =
      number_words "TIME" time
      ++ number_words "RETRYCOUNT" retry
      ++ flag force "FORCE"
      ++ justid_words justid

  pub read_time-words :
      (idle time retry : Option ℤ) (force justid : Bool)
      → read_time read_int idle (time_words time retry force justid)
        ≡ some (idle, time, retry, force, justid)
  unfolding read_time bytes_eq ascii
  read_time-words idle (some n) retry force justid =
      rw (reads_int n) (read_retry-words idle (some n) retry force justid)
  read_time-words idle none (some n) force justid = read_retry-words idle none (some n) force justid
  read_time-words idle none none true true = refl
  read_time-words idle none none true false = refl
  read_time-words idle none none false true = refl
  read_time-words idle none none false false = refl
