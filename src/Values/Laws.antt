-- ===== src/Values/Laws.antt =====
-- The conversions of src/value.rs on the replies that carry a type itself.
use glide_rust.Base.{List, [], ◌∷◌, map, ◌≡◌, refl, All, ◌<◌, Bytes, ℤ, some, ok, not, arith, ◌≢◌}
use glide_rust.Base.Fallible.{collect, map_ok}
use glide_rust.Base.Int.{is_zero}
use glide_rust.Redis.{Value, nil, int, double, bulk_string, Redis, IsExact}
use glide_rust.Values.{
  to_bytes, to_opt_bytes, to_string, to_opt_string, to_i64, to_f64, to_opt_f64, to_bool,
}

module _ {F O : Type 0} (redis : Redis F O) where
  -- A nil reply, and no other, is an absent value: on any other reply each optional conversion
  -- agrees with the plain one, its errors included.
  pub opt_conversions :
      (v : Value F O)
      → v ≢ nil
      → (to_opt_bytes redis v ≡ map_ok some (to_bytes redis v))
        × (to_opt_string redis v ≡ map_ok some (to_string redis v))
        × (to_opt_f64 redis v ≡ map_ok some (to_f64 redis v))
  unfolding to_opt_bytes to_bytes to_opt_string to_opt_f64 to_f64
  opt_conversions nil h = absurd (h refl)
  opt_conversions _ h = (refl, refl, refl)

  pub to_bytes-bulk_string : (b : Bytes) → to_bytes redis (bulk_string b) ≡ ok b
  unfolding to_bytes
  to_bytes-bulk_string b = refl

  pub collect-bulk_strings :
      (bs : List Bytes) → collect (to_bytes redis) (map bulk_string bs) ≡ ok bs
  unfolding collect
  collect-bulk_strings [] = refl
  collect-bulk_strings (b ∷ bs) = rw (to_bytes-bulk_string b, collect-bulk_strings bs) refl

  module _ (exact : IsExact redis) where
    -- With the fork's conversion exact on integers, a number and a boolean read alike: `to_bool` is
    -- the test of the number against zero, for an integer reply as for any that `to_i64` reads.
    pub to_bool-eq-to_i64 :
        (n : ℤ) → to_bool redis (int n) ≡ map_ok (λ i. not (is_zero i)) (to_i64 redis (int n))
    unfolding to_bool to_i64
    to_bool-eq-to_i64 n = ground (arith, exact.i64_of-int n)

    pub to_i64-int : (n : ℤ) → to_i64 redis (int n) ≡ ok n
    unfolding to_i64
    to_i64-int n = ground (arith, exact.i64_of-int n)

    pub to_f64-double : (x : F) → to_f64 redis (double x) ≡ ok x
    unfolding to_f64
    to_f64-double x = ground (arith, exact.f64_of-double x)

    pub to_string-bulk_string :
        (b : Bytes) → All (λ c. c < 128) b → to_string redis (bulk_string b) ≡ ok b
    unfolding to_string
    to_string-bulk_string b h = ground (arith, exact.string_of-bulk_string b h)
