-- ===== src/Tests/StreamTests.antt =====
-- Reads and claims of streams against small servers.
use glide_rust.Base.{
  Bool, true, false, bytes_eq, ℕ, ℤ, pos, negsuc, Bytes, ascii, Option, none, some, List, [], ◌∷◌,
  ok, ◌≡◌, refl,
}
use glide_rust.Redis.{nil, array, vec}
use glide_rust.Base.Io.{Io}
use glide_rust.Error.{GlideError}
use glide_rust.Executor.{CommandExecutor}
use glide_rust.Streams.{StreamEntry}
use glide_rust.Streams.Laws.{resp2_streams}
use glide_rust.Streams.Options.{StreamReadOptions}
use glide_rust.Streams.Reading.{Request, read_xread, ids}
use glide_rust.Streams.Options.{StreamClaimOptions}
use glide_rust.Streams.{parse_entries, collect_strings}
use glide_rust.Streams.Commands.{xclaim, xclaim_justid}
use glide_rust.Streams.Claiming.{ClaimRequest, is_option, read_xclaim, AreIds}
use glide_rust.Streams.Claiming.Laws.{xclaim_lem}
use glide_rust.Commands.Answers.{answering, decoded}
use glide_rust.Redis.{raw}
use glide_rust.Tests.Samples.{Reply, redis}

abbrev read_int : Bytes → Option ℤ
read_int (n ∷ []) = some (pos n)
read_int (n ∷ m ∷ []) = some (negsuc n)
read_int _ = none

reads_digits : (n : ℤ) → read_int (redis.int_arg n) ≡ some n
reads_digits (pos n) = refl
reads_digits (negsuc n) = refl

abbrev keys_ids : List (Bytes × Bytes)
keys_ids = (ascii "s", ascii "0") ∷ (ascii "t", ascii "1-0") ∷ []

abbrev waiting : Option StreamReadOptions
waiting = some (record { block_ms = some (pos 500); count = some (pos 2) })

abbrev found : Request → ℕ → List (Bytes × List StreamEntry)
found request w = (ascii "s", (ascii "9", (ascii "f", ascii "v") ∷ []) ∷ []) ∷ []

abbrev reply_to : Option Request → Io ℕ GlideError Reply
reply_to none w = (ok nil, w)
reply_to (some request) w = (ok (array (vec (resp2_streams redis (found request w)))), w)

abbrev client : CommandExecutor ℕ ℕ ℕ ℕ
client = record { execute_command = λ cmd routing. reply_to (read_xread read_int cmd) }

abbrev pending : List Bytes
pending = ascii "1-0" ∷ ascii "2-0" ∷ []

pending-AreIds : AreIds pending
unfolding is_option bytes_eq ascii
pending-AreIds = (refl, (refl, tt))

abbrev forced : Option StreamClaimOptions
forced = some (record {
  idle = some (pos 4);
  idle_unix_time = none;
  retry_count = some (pos 2);
  is_force = true;
})

abbrev hand_over : Option ClaimRequest → Io ℕ GlideError Reply
hand_over none w = (ok nil, w)
hand_over (some asked) w = (ok (array (vec [])), 1)

abbrev claim_of : Bool → Option ClaimRequest
claim_of justid = some (record {
  key = ascii "s";
  group = ascii "g";
  consumer = ascii "c";
  min_idle = some (pos 60);
  ids = pending;
  options = (some (pos 4), none, some (pos 2), true, justid);
})

xclaim_example :
    (xclaim redis
        (answering ℕ (read_xclaim read_int) hand_over)
        (raw (ascii "s"))
        (ascii "g")
        (ascii "c")
        (pos 60)
        pending
        forced
      ≡ decoded (parse_entries redis) hand_over (claim_of false))
    × (xclaim_justid redis
          (answering ℕ (read_xclaim read_int) hand_over)
          (raw (ascii "s"))
          (ascii "g")
          (ascii "c")
          (pos 60)
          pending
          forced
        ≡ decoded (collect_strings redis) hand_over (claim_of true))
xclaim_example =
    xclaim_lem redis read_int reads_digits (ascii "s") (ascii "g") (ascii "c") (pos 60) pending
      pending-AreIds forced ℕ hand_over
