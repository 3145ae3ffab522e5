-- ===== src/Scan.antt =====
-- src/commands/scan.rs and the `scan*` methods of src/commands/core.rs: the cursor-driven
-- iterators. A loop that fetches pages takes fuel, since a server may send empty pages for ever.
pub mod Pages
pub mod Blocking
use glide_rust.Base.{
  ℕ, zero, suc, ℤ, pos, Bytes, Option, none, some, List, [], ◌∷◌, ◌++◌, Result, ok, err, ◌==◌, true,
  false,
}
use glide_rust.Base.Fallible.{map_ok}
use glide_rust.Base.Io.{Io, ◌>>=◌, lift}
use glide_rust.Redis.{Value, Redis, RedisError, Args, Cmd, kw, raw}

pub record PageSpec : Type 0 where
  pub prefix : List Bytes
  pub suffix : List Bytes

module _ {F O : Type 0} (redis : Redis F O) where
  unfoldable pub to_cmd : PageSpec → ℕ → Cmd
  to_cmd spec cursor = spec.prefix ++ raw (redis.int_arg (pos cursor)) ++ spec.suffix

-- `ScanIter`, without the connection: `R` is the element type `RV`.
pub record ScanIter (R : Type 0) : Type 0 where
  pub spec : PageSpec
  pub cursor : ℕ
  pub batch : List R

-- The connection's `glide_send_owned`, and the fork's conversion of a reply to `(u64, Vec<RV>)`.
module _ {F O W R : Type 0} (redis : Redis F O) (send : Cmd → Io W RedisError (Value F O))
    (page_of : Value F O → Result RedisError (ℕ × List R)) where
  -- One page: the request, the reply, and its conversion.
  unfoldable pub fetch : PageSpec → ℕ → Io W RedisError (ℕ × List R)
  unfolding to_cmd
  fetch spec cursor = do reply ← send (to_cmd redis spec cursor); lift (page_of reply)

  -- `ScanIter::new`
  unfoldable pub new : List Bytes → List Bytes → Io W RedisError (ScanIter R)
  new prefix suffix =
      let spec : PageSpec = record { prefix = prefix; suffix = suffix } in
      fetch spec 0 >>= λ page. lift (ok (record { spec = spec; cursor = page.0; batch = page.1 }))

  -- `ScanIter::next_item`: the item or the end, with the iterator and the world after it; `none`
  -- alone means that the fuel ran out.
  unfoldable pub next_item : ℕ → ScanIter R → W → Option (Option R × ScanIter R × W)
  next_item zero it w = none
  next_item (suc fuel) it w = elim it.batch [
    | v ∷ rest ↦ some (some v, record it { batch = rest }, w)
    | [] ↦ elim (it.cursor == 0) [
      | true ↦ some (none, it, w)
      | false ↦
          let (page, w') = fetch it.spec it.cursor w in
          elim page [
            | err e ↦ some (none, it, w')
            | ok (cursor, batch) ↦ next_item fuel (record it { cursor = cursor; batch = batch }) w'
          ]
    ]
  ]

  unfoldable pub scan : Io W RedisError (ScanIter R)
  unfolding new
  scan = new (kw "SCAN") []

  unfoldable pub scan_match : Args → Io W RedisError (ScanIter R)
  unfolding new
  scan_match pattern = new (kw "SCAN") (kw "MATCH" ++ pattern)

  unfoldable pub hscan : Args → Io W RedisError (ScanIter R)
  unfolding new
  hscan key = new (kw "HSCAN" ++ key) []

  unfoldable pub hscan_match : Args → Args → Io W RedisError (ScanIter R)
  unfolding new
  hscan_match key pattern = new (kw "HSCAN" ++ key) (kw "MATCH" ++ pattern)

  unfoldable pub sscan : Args → Io W RedisError (ScanIter R)
  unfolding new
  sscan key = new (kw "SSCAN" ++ key) []

  unfoldable pub sscan_match : Args → Args → Io W RedisError (ScanIter R)
  unfolding new
  sscan_match key pattern = new (kw "SSCAN" ++ key) (kw "MATCH" ++ pattern)

  unfoldable pub zscan : Args → Io W RedisError (ScanIter R)
  unfolding new
  zscan key = new (kw "ZSCAN" ++ key) []

  unfoldable pub zscan_match : Args → Args → Io W RedisError (ScanIter R)
  unfolding new
  zscan_match key pattern = new (kw "ZSCAN" ++ key) (kw "MATCH" ++ pattern)
