-- ===== src/Streams/Claiming/Laws.antt =====
-- What the claims of src/commands/stream.rs give, from a server that answers for what it reads.
use glide_rust.Base.{
  ℤ, Bytes, ascii, bytes_eq, Bool, true, false, Option, none, some, List, [], ◌∷◌, ◌++◌, ◌≡◌, refl,
  sym, ap, ◌∙◌, append_assoc, append-nil,
}
use glide_rust.Base.Io.{Io}
use glide_rust.Error.{GlideError}
use glide_rust.Redis.{Value, Redis, Cmd, kw, raw, opt, flag}
use glide_rust.Commands.Answers.{answering, decoded}
use glide_rust.Streams.{parse_entries, collect_strings}
use glide_rust.Streams.Options.{StreamClaimOptions, claim_args}
use glide_rust.Streams.Commands.{xclaim, xclaim_justid}
use glide_rust.Streams.Claiming.{
  ClaimOptions, ClaimRequest, asked, is_option, read_ids, read_options, read_xclaim, AreIds,
  justid_words, read_time-words,
}

module _ {F O : Type 0} (redis : Redis F O) (read_int : Bytes → Option ℤ)
    (reads_int : (n : ℤ) → read_int (redis.int_arg n) ≡ some n) where
  abbrev number : Option ℤ → Bytes → List Bytes
  number o word = opt o (λ n. word ∷ redis.int_arg n ∷ [])

  abbrev all_words : Option ℤ → Option ℤ → Option ℤ → Bool → Bool → List Bytes
  all_words idle time retry force justid =
      number idle (ascii "IDLE")
      ++ number time (ascii "TIME")
      ++ number retry (ascii "RETRYCOUNT")
      ++ flag force "FORCE"
      ++ justid_words justid

  read_all-words :
      (idle time retry : Option ℤ) (force justid : Bool)
      → read_options read_int (all_words idle time retry force justid)
        ≡ some (idle, time, retry, force, justid)
  unfolding read_options bytes_eq ascii
  read_all-words (some n) time retry force justid =
      rw (reads_int n) (read_time-words redis read_int reads_int (some n) time retry force justid)
  read_all-words none (some n) retry force justid =
      read_time-words redis read_int reads_int none (some n) retry force justid
  read_all-words none none (some n) force justid =
      read_time-words redis read_int reads_int none none (some n) force justid
  read_all-words none none none true true = refl
  read_all-words none none none true false = refl
  read_all-words none none none false true = refl
  read_all-words none none none false false = refl

  -- No id is read in the options.
  no_ids :
      (idle time retry : Option ℤ) (force justid : Bool)
      → read_ids (all_words idle time retry force justid)
        ≡ ([], all_words idle time retry force justid)
  unfolding read_ids is_option bytes_eq ascii
  no_ids (some n) time retry force justid = refl
  no_ids none (some n) retry force justid = refl
  no_ids none none (some n) force justid = refl
  no_ids none none none true justid = refl
  no_ids none none none false true = refl
  no_ids none none none false false = refl

  read_ids-append :
      (ids words : List Bytes)
      → AreIds ids
      → read_ids words ≡ ([], words)
      → read_ids (ids ++ words) ≡ (ids, words)
  unfolding read_ids
  read_ids-append [] words h stop = stop
  read_ids-append (id ∷ ids) words (fresh, h) stop =
      rw (read_ids-append ids words h stop, fresh) refl

  abbrev option_words : Option StreamClaimOptions → Bool → List Bytes
  option_words options justid = opt options (claim_args redis) ++ justid_words justid

  no_ids_options :
      (options : Option StreamClaimOptions) (justid : Bool)
      → read_ids (option_words options justid) ≡ ([], option_words options justid)
  unfolding claim_args
  no_ids_options none justid = no_ids none none none false justid
  no_ids_options (some o) justid = no_ids o.idle o.idle_unix_time o.retry_count o.is_force justid

  read_option-words :
      (options : Option StreamClaimOptions) (justid : Bool)
      → read_options read_int (option_words options justid) ≡ some (asked options justid)
  unfolding claim_args
  read_option-words none justid = read_all-words none none none false justid
  read_option-words (some o) justid =
      read_all-words o.idle o.idle_unix_time o.retry_count o.is_force justid

  module _ (key group consumer : Bytes) (min_idle : ℤ) (ids : List Bytes) (apart : AreIds ids)
      (options : Option StreamClaimOptions) where
    abbrev request : Bool → ClaimRequest
    request justid = record {
      key = key;
      group = group;
      consumer = consumer;
      min_idle = some min_idle;
      ids = ids;
      options = asked options justid;
    }

    read_xclaim-words :
        (words : List Bytes) (found : ClaimOptions)
        → read_ids words ≡ ([], words)
        → read_options read_int words ≡ some found
        → read_xclaim read_int
            (ascii "XCLAIM" ∷ key ∷ group ∷ consumer ∷ redis.int_arg min_idle ∷ (ids ++ words))
          ≡ some (record {
            key = key;
            group = group;
            consumer = consumer;
            min_idle = some min_idle;
            ids = ids;
            options = found;
          })
    unfolding read_xclaim bytes_eq ascii
    read_xclaim-words words found stop reads =
        rw (read_ids-append ids words apart stop, reads, reads_int min_idle) refl

    read_claim :
        (justid : Bool)
        → read_xclaim read_int (
            ascii "XCLAIM"
            ∷ key
            ∷ group
            ∷ consumer
            ∷ redis.int_arg min_idle
            ∷ (ids ++ option_words options justid))
          ≡ some (request justid)
    read_claim justid =
        read_xclaim-words (option_words options justid) (asked options justid)
          (no_ids_options options justid) (read_option-words options justid)

    abbrev claim : List Bytes → Cmd
    claim words = ascii "XCLAIM" ∷ key ∷ group ∷ consumer ∷ redis.int_arg min_idle ∷ words

    -- Both claims give what a server answers to exactly the claim of the call: the key, the group, the
    -- consumer, the idle time, all the ids in order, and each option as it is given or not; one asks
    -- for the entries, the other for the ids only. No id is a word of the options, and the server
    -- reads back the numbers that are written.
    pub xclaim_lem :
        (P : Type 0) {W : Type 0} (serve : Option ClaimRequest → Io W GlideError (Value F O))
        → let server = answering P (read_xclaim read_int) serve in
          (xclaim redis server (raw key) group consumer min_idle ids options
            ≡ decoded (parse_entries redis) serve (some (request false)))
          × (xclaim_justid redis server (raw key) group consumer min_idle ids options
              ≡ decoded (collect_strings redis) serve (some (request true)))
    unfolding xclaim xclaim_justid
    xclaim_lem P serve =
        let given = opt options (claim_args redis) in
        (
          ap (λ words. decoded (parse_entries redis) serve (read_xclaim read_int (claim words)))
                (ap (λ o. ids ++ o) (sym (append-nil given)))
              ∙ ap (decoded (parse_entries redis) serve) (read_claim false),
          ap (λ words. decoded (collect_strings redis) serve (read_xclaim read_int (claim words)))
                (append_assoc ids given (kw "JUSTID"))
              ∙ ap (decoded (collect_strings redis) serve) (read_claim true),
        )
