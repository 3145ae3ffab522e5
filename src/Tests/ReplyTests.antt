-- ===== src/Tests/ReplyTests.antt =====
-- The reply parsers of the extension traits at concrete replies.
use glide_rust.Base.{
  map, bytes_eq, if◌then◌else◌, refl, Option, none, some, ◌++◌, ℕ, ℤ, pos, Bytes, ascii, true, List,
  [], ◌∷◌, ok, ◌≡◌, ◌↔◌, inl, inr, arith,
}
use glide_rust.Redis.{array, set, vec, raw}
use glide_rust.Commands.Replies.Laws.{nested, singles}
use glide_rust.Commands.SortedSet.{collect_member_scores}
use glide_rust.Commands.Hash.{collect_pairs}
use glide_rust.Commands.PubSub.{parse_numsub}
use glide_rust.Commands.Pairs.{
  ReadsPairs, member, score, field_value, subscribers, collect_member_scores_lem, collect_pairs_lem,
}
use glide_rust.Commands.Sets.{hash_set, set_op}
use glide_rust.Commands.Sets.Laws.{SameMembers, Member, bulk_strings, replying, set_op_lem}
use glide_rust.Commands.Server.{time}
use glide_rust.Commands.Server.Laws.{clock, time_lem}
use glide_rust.Base.Int.Parse.{i64_limit}
use glide_rust.Commands.Geo.{geopos, geohash}
use glide_rust.Commands.Geo.Laws.{locating, geopos_lem}
use glide_rust.Config.Types.{ServerCredentials, ClientIdentity, with_password}
use glide_rust.Config.Redaction.{Formatter, credentials_fmt, identity_fmt, redaction_lem}
use glide_rust.Tests.Samples.{redis, redis-IsExact}

abbrev scored : List (Bytes × ℕ)
scored = (ascii "m", 3) ∷ (ascii "n", 4) ∷ []

collect_member_scores_example :
    ReadsPairs (collect_member_scores redis) (member redis) (score redis) scored
    × (collect_member_scores redis (array (vec (nested (member redis) (score redis) scored)))
        ≡ ok scored)
collect_member_scores_example = collect_member_scores_lem redis redis-IsExact scored

abbrev fields : List (Bytes × Bytes)
fields = (ascii "f", ascii "v") ∷ (ascii "g", ascii "w") ∷ []

abbrev channels : List (Bytes × ℤ)
channels = (ascii "c", pos 2) ∷ []

collect_pairs_example :
    ReadsPairs (collect_pairs redis) (member redis) (field_value redis) fields
    × (collect_pairs redis (array (vec (nested (member redis) (field_value redis) fields)))
        ≡ ok fields)
    × ReadsPairs (parse_numsub redis) (member redis) (subscribers redis) channels
collect_pairs_example = collect_pairs_lem redis redis-IsExact fields channels

abbrev a_b : List Bytes
a_b = ascii "a" ∷ ascii "b" ∷ []

abbrev b_a_b : List Bytes
b_a_b = ascii "b" ∷ ascii "a" ∷ ascii "b" ∷ []

same : SameMembers a_b b_a_b
same x = (
  λ h. elim h [ inl e ↦ inr (inl e) | inr g ↦ elim g [ inl e ↦ inl e | inr z ↦ absurd z ] ],
  λ h. elim h [
    | inl e ↦ inr (inl e)
    | inr g ↦ elim g [ inl e ↦ inl e | inr f ↦ elim f [ inl e ↦ inr (inl e) | inr z ↦ absurd z ] ]
  ],
)

set_op_example :
    (set_op redis
        (replying redis {P = ℕ} {W = ℕ} (array (vec (bulk_strings redis a_b))))
        (ascii "SUNION")
        (raw (ascii "k") ∷ [])
        0
      ≡ (ok (hash_set a_b), 0))
    × (set_op redis
          (replying redis {P = ℕ} {W = ℕ} (set (vec (bulk_strings redis b_a_b))))
          (ascii "SUNION")
          (raw (ascii "k") ∷ [])
          0
        ≡ (ok (hash_set a_b), 0))
    × ((hash_set a_b (ascii "b") ≡ true) ↔ Member (ascii "b") a_b)
set_op_example =
    set_op_lem redis ℕ (ascii "SUNION") (raw (ascii "k") ∷ []) a_b b_a_b (ascii "b") 0 same

time_example :
    (time redis (clock redis {P = ℕ} {W = ℕ} (pos 1700000000) (pos 250)) 0
      ≡ (ok (pos 1700000000, pos 250), 0))
    × (time redis (clock redis {P = ℕ} {W = ℕ} (pos i64_limit) (pos 250)) 0
        ≡ (ok (pos 0, pos 250), 0))
time_example =
    time_lem redis redis-IsExact ℕ 0 (pos 1700000000) (pos 250) i64_limit (omega arith)
      (omega arith) (omega arith)

abbrev position : Bytes → Bytes → ℕ → Option (ℕ × ℕ)
position key member w = if bytes_eq member (ascii "Palermo") then some (13, 38) else none

abbrev geo_hash : Bytes → Bytes → ℕ → Option Bytes
geo_hash key member w =
    if bytes_eq member (ascii "Palermo") then some (ascii "sqc8b49rny0") else none

abbrev towns : List Bytes
towns = ascii "Palermo" ∷ ascii "nowhere" ∷ []

geopos_example :
    (geopos redis (locating redis {P = ℕ} position geo_hash) (raw (ascii "g")) (singles towns) 0
      ≡ (ok (map (λ m. position (ascii "g") m 0) towns), 0))
    × (geohash redis (locating redis {P = ℕ} position geo_hash) (raw (ascii "g")) (singles towns) 0
        ≡ (ok (map (λ m. geo_hash (ascii "g") m 0) towns), 0))
geopos_example = geopos_lem redis redis-IsExact ℕ position geo_hash (ascii "g") towns 0

-- A formatter that prints a struct's fields one after the other.
abbrev shown : List (Bytes × Bytes) → Bytes
shown [] = []
shown ((name, text) ∷ fields) = name ++ ascii ": " ++ text ++ shown fields

abbrev printed : Option Bytes → Bytes
printed none = ascii "None"
printed (some b) = b

abbrev plain : Formatter
plain = record {
  debug_struct = λ name fields. name ++ shown fields;
  debug_text = λ b. b;
  debug_option = printed;
  debug_iam = λ iam. [];
}

abbrev operator : ServerCredentials
operator = record { username = some (ascii "op"); password = none; iam_config = none }

abbrev old_identity : ClientIdentity
old_identity = record { cert_pem = ascii "CERT"; key_pem = ascii "KEY1" }

abbrev new_identity : ClientIdentity
new_identity = record { cert_pem = ascii "PERM"; key_pem = ascii "longer key" }

redaction_example :
    (credentials_fmt plain (with_password (ascii "secret") operator)
      ≡ credentials_fmt plain (with_password (ascii "other") operator))
    × (identity_fmt plain old_identity ≡ identity_fmt plain new_identity)
unfolding ascii
redaction_example =
    redaction_lem plain operator (ascii "secret") (ascii "other") old_identity new_identity refl
