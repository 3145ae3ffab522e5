-- ===== src/Tests/ScanTests.antt =====
-- The scan iterators against a server that sends two pages and then breaks.
use glide_rust.Base.{
  ℕ, zero, suc, none, some, List, [], ◌∷◌, Result, ok, err, ◌≡◌, refl, ◌≢◌, arith,
}
use glide_rust.Base.Io.{Io}
use glide_rust.Redis.{int, RedisError, Cmd, kw}
use glide_rust.Base.{pos}
use glide_rust.Scan.{PageSpec, ScanIter, fetch, next_item, new}
use glide_rust.Scan.Pages.{
  Feed, finished, page, Owes, Yields, next_item-Yields, drain, new-drain, next_item_resumes,
}
use glide_rust.Scan.Blocking.{sync_new, sync_next, sync_next-next_item}
use glide_rust.Tests.Samples.{Reply, redis, io_failure}

-- The world counts the calls; each is answered with its number.
abbrev serve : Cmd → Io ℕ RedisError Reply
serve cmd w = (ok (int (pos w)), suc w)

-- Call 0 gives two items and cursor 5, call 1 one item and the end.
abbrev page_of : Reply → Result RedisError (ℕ × List ℕ)
page_of (int (pos zero)) = ok (5, 10 ∷ 11 ∷ [])
page_of (int (pos (suc n))) = ok (0, 12 ∷ [])
page_of _ = err io_failure

abbrev spec : PageSpec
spec = record { prefix = kw "SCAN"; suffix = [] }

five : ◌≢◌ {A = ℕ} 5 0
five e = omega (arith, e)

feed : Feed redis serve page_of spec 2 1 5 1 (12 ∷ [])
unfolding fetch
feed = page five refl (finished refl refl)

first_page : fetch redis serve page_of spec 0 0 ≡ (ok (5, 10 ∷ 11 ∷ []), 1)
unfolding fetch
first_page = refl

new-drain_example :
    (it : ScanIter ℕ) × (new redis serve page_of (kw "SCAN") [] 0 ≡ (ok it, 1))
    × (drain redis serve page_of 4 3 it 1 ≡ some (10 ∷ 11 ∷ 12 ∷ [], 2))
new-drain_example =
    new-drain redis serve page_of (kw "SCAN") [] 2 0 1 5 1 4 3 (10 ∷ 11 ∷ []) (12 ∷ []) first_page
      feed (omega arith) (omega arith)

abbrev it : ScanIter ℕ
it = record { spec = spec; cursor = 5; batch = 11 ∷ [] }

it-Owes : Owes redis serve page_of 2 1 it 1 (11 ∷ 12 ∷ [])
it-Owes = record { later = 12 ∷ []; feed = feed; split = refl }

next_item-Yields_example :
    Yields redis serve page_of 2 1 (11 ∷ 12 ∷ []) (next_item redis serve page_of 3 it 1)
next_item-Yields_example =
    next_item-Yields redis serve page_of 2 3 1 it 1 (11 ∷ 12 ∷ []) (omega arith) it-Owes

-- A server that breaks at call 0 and answers the next.
abbrev flaky : Reply → Result RedisError (ℕ × List ℕ)
flaky (int (pos (suc n))) = ok (0, 12 ∷ [])
flaky _ = err io_failure

abbrev empty : ScanIter ℕ
empty = record { spec = spec; cursor = 5; batch = [] }

breaks : fetch redis serve flaky spec 5 0 ≡ (err io_failure, 1)
unfolding fetch
breaks = refl

answers : fetch redis serve flaky spec 5 1 ≡ (ok (0, 12 ∷ []), 2)
unfolding fetch
answers = refl

next_item_resumes_example :
    (next_item redis serve flaky 1 empty 0 ≡ some (none, empty, 1))
    × (next_item redis serve flaky 2 empty 1
        ≡ some (some 12, record empty { cursor = 0; batch = [] }, 2))
next_item_resumes_example =
    next_item_resumes redis serve flaky 0 empty 0 1 2 io_failure 0 12 [] refl five breaks answers

sync_next_example :
    (sync_new redis serve page_of (kw "SCAN") [] 1 ≡ new redis serve page_of (kw "SCAN") [] 1)
    × (sync_next redis serve page_of 3 it 1 ≡ next_item redis serve page_of 3 it 1)
sync_next_example = sync_next-next_item redis serve page_of (kw "SCAN") [] 3 it 1
