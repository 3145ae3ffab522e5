-- ===== src/Streams/Adding/Laws.antt =====
-- What the commands of src/commands/stream.rs that add to a stream and trim it give, from a server that
-- answers for what it reads.
use glide_rust.Base.{
  ℤ, Bytes, ascii, Bool, true, not, Option, none, some, List, ◌∷◌, ◌≡◌, ap, ◌∙◌, append_assoc,
}
use glide_rust.Base.Io.{Io}
use glide_rust.Error.{GlideError}
use glide_rust.Redis.{Value, Redis, raw}
use glide_rust.Values.{to_i64, to_opt_string}
use glide_rust.Commands.Answers.{answering, decoded}
use glide_rust.Streams.Options.{
  by_max_len, by_min_id, StreamTrimOptions, StreamAddOptions, add_args,
}
use glide_rust.Streams.Commands.{field_args, xadd, xadd_options, xtrim_maxlen, xtrim_minid}
use glide_rust.Streams.Adding.{
  AddRequest, TrimRequest, singles, IsId, IsThreshold, trim_by, read_xadd, read_xtrim,
  read_xadd-args, read_xtrim-maxlen, read_xtrim-minid,
}

module _ (P : Type 0) {F O W : Type 0} (redis : Redis F O) (read_int : Bytes → Option ℤ)
    (reads_int : (n : ℤ) → read_int (redis.int_arg n) ≡ some n) where
  -- The commands that add to a stream and trim it give what a server answers to exactly what they are
  -- called with: the key, whether a missing stream is made, the trimming (its strategy, whether it is
  -- exact, its threshold and its limit), the id and the fields in their order; without options, a
  -- missing stream is made and nothing is trimmed. The id is no word of the options, a threshold of
  -- `XTRIM` is no sign, and the server reads back the numbers that are written.
  pub xadd_lem :
      (serve : Option AddRequest → Io W GlideError (Value F O))
      (cut : Option TrimRequest → Io W GlideError (Value F O)) (key id : Bytes)
      (fields : List (Bytes × Bytes)) (options : StreamAddOptions) (maxlen : ℤ) (minid : Bytes)
      (approximate : Bool)
      → IsId id
      → IsThreshold (redis.int_arg maxlen)
      → IsThreshold minid
      → let server = answering P (read_xadd read_int) serve in
        let trims = answering P (read_xtrim read_int) cut in
        let added = λ (creating : Bool) (trim : Option StreamTrimOptions).
          decoded (to_opt_string redis) serve (
            some (record {
              key = key;
              creating = creating;
              trimming = trim;
              id = id;
              fields = fields;
            })) in
        (xadd redis server (raw key) id (singles fields) ≡ added true none)
        × (xadd_options redis server (raw key) id (singles fields) options
            ≡ added options.make_stream options.trim)
        × (xtrim_maxlen redis trims (raw key) maxlen approximate
            ≡ decoded
                (to_i64 redis)
                cut
                (some (key, trim_by by_max_len (not approximate) (redis.int_arg maxlen) none)))
        × (xtrim_minid redis trims (raw key) minid approximate
            ≡ decoded
                (to_i64 redis)
                cut
                (some (key, trim_by by_min_id (not approximate) minid none)))
  unfolding xadd xadd_options xtrim_maxlen xtrim_minid add_args
  xadd_lem serve cut key id fields options maxlen minid approximate fresh number text =
      let added = λ (r : Option AddRequest). decoded (to_opt_string redis) serve r in
      let trimmed = λ (r : Option TrimRequest). decoded (to_i64 redis) cut r in
      (
        ap added (
            read_xadd-args read_int redis reads_int id fresh key
              (record { make_stream = true; trim = none }) fields),
        ap (λ words. added (read_xadd read_int (ascii "XADD" ∷ key ∷ words)))
              (append_assoc (add_args redis options) (raw id) (field_args (singles fields)))
            ∙ ap added (read_xadd-args read_int redis reads_int id fresh key options fields),
        ap trimmed (read_xtrim-maxlen read_int key (redis.int_arg maxlen) number approximate),
        ap trimmed (read_xtrim-minid read_int key minid text approximate),
      )
