-- ===== src/Commands/Bitmap/Laws.antt =====
-- The results of the bit-field commands of src/commands/bitmap.rs, from a server that carries out
-- what it reads.
use glide_rust.Base.{
  ℤ, Bytes, ascii, Option, none, some, List, [], ◌∷◌, ok, ◌≡◌, refl, sym, subst, ap, ◌∙◌,
}
use glide_rust.Base.Fallible.{collect, ◌>>=◌}
use glide_rust.Base.Io.{Io}
use glide_rust.Error.{GlideError}
use glide_rust.Redis.{Value, nil, int, array, vec, elems-vec, Redis, IsExact, raw}
use glide_rust.Values.Laws.{to_i64-int}
use glide_rust.Executor.{CommandExecutor}
use glide_rust.Commands.Bitmap.{
  BitFieldSubcommand, bitfield_cmd, field_result, parse_bitfield, bitfield, bitfield_readonly,
}
use glide_rust.Commands.Bitmap.Reading.{read_bitfield, read_bitfield-bitfield_cmd}

module _ {F O : Type 0} (redis : Redis F O) (read_int : Bytes → Option ℤ)
    (reads_int : (n : ℤ) → read_int (redis.int_arg n) ≡ some n) where
  -- How a server sends the results, an overflow that fails as a nil.
  abbrev pub results : List (Option ℤ) → List (Value F O)
  results [] = []
  results (none ∷ rs) = nil ∷ results rs
  results (some n ∷ rs) = int n ∷ results rs

  -- A server that carries out the subcommands that it reads, and sends the results.
  abbrev pub carrying_out :
      {P W : Type 0}
      → (Option (Bytes × Bytes × List BitFieldSubcommand) → W → List (Option ℤ) × W)
      → CommandExecutor F O P W
  carrying_out carry = record {
    execute_command = λ cmd routing w.
        let (rs, w') = carry (read_bitfield read_int cmd) w in (ok (array (vec (results rs))), w');
  }

  module _ (exact : IsExact redis) where
    field_results : (rs : List (Option ℤ)) → collect (field_result redis) (results rs) ≡ ok rs
    unfolding collect field_result
    field_results [] = refl
    field_results (none ∷ rs) = rw (field_results rs) refl
    field_results (some n ∷ rs) = rw (to_i64-int redis exact n, field_results rs) refl

    parse_bitfield-results :
        (rs : List (Option ℤ)) → parse_bitfield redis (array (vec (results rs))) ≡ ok rs
    unfolding parse_bitfield
    parse_bitfield-results rs =
        subst (λ l. collect (field_result redis) l ≡ ok rs) (sym (elems-vec (results rs)))
          (field_results rs)

    -- What either command makes of the server's answer to a command.
    abbrev taken :
        {W : Type 0}
        → (Option (Bytes × Bytes × List BitFieldSubcommand) → W → List (Option ℤ) × W)
        → Option (Bytes × Bytes × List BitFieldSubcommand)
        → Io W GlideError (List (Option ℤ))
    taken carry asked w =
        let (rs, w') = carry asked w in (ok (array (vec (results rs))) >>= parse_bitfield redis, w')

    answered :
        (P : Type 0) {W : Type 0}
        (carry : Option (Bytes × Bytes × List BitFieldSubcommand) → W → List (Option ℤ) × W)
        (name key : Bytes) (subcommands : List BitFieldSubcommand) (w : W)
        → taken carry (read_bitfield read_int (bitfield_cmd redis name (raw key) subcommands)) w ≡ (
          ok ((carry (some (name, key, subcommands)) w).0),
          (carry (some (name, key, subcommands)) w).1,
        )
    answered P carry name key subcommands w =
        ap (λ asked. taken carry asked w)
          (read_bitfield-bitfield_cmd redis read_int reads_int name key subcommands)
        ∙ ap (λ r. (r, (carry (some (name, key, subcommands)) w).1))
            (parse_bitfield-results ((carry (some (name, key, subcommands)) w).0))

    -- With a server that reads back the numbers that are written and carries out the subcommands
    -- that it reads, the two bit-field commands give exactly the results, in order, of carrying out
    -- the subcommands of the call on the key of the call, a failed overflow as an absent result.
    pub bitfield_lem :
        (P : Type 0) {W : Type 0}
        (carry : Option (Bytes × Bytes × List BitFieldSubcommand) → W → List (Option ℤ) × W)
        (key : Bytes) (subcommands : List BitFieldSubcommand) (w : W)
        → let asked = λ (name : Bytes). carry (some (name, key, subcommands)) w in
          (bitfield redis (carrying_out {P = P} carry) (raw key) subcommands w
            ≡ (ok ((asked (ascii "BITFIELD")).0), (asked (ascii "BITFIELD")).1))
          × (bitfield_readonly redis (carrying_out {P = P} carry) (raw key) subcommands w
              ≡ (ok ((asked (ascii "BITFIELD_RO")).0), (asked (ascii "BITFIELD_RO")).1))
    unfolding bitfield bitfield_readonly
    bitfield_lem P carry key subcommands w = (
      answered P carry (ascii "BITFIELD") key subcommands w,
      answered P carry (ascii "BITFIELD_RO") key subcommands w,
    )
