-- ===== src/Scan/Pages.antt =====
-- The scan iterators of src/commands/scan.rs against the pages that a server sends.
use glide_rust.Base.{
  Bytes, ℕ, zero, suc, ◌<◌, ◌≡◌, refl, ◌≢◌, Option, none, some, List, [], ◌∷◌, ◌++◌, Result, ok,
  err, length, arith, ◌∙◌,
}
use glide_rust.Base.Io.{Io}
use glide_rust.Redis.{Value, Redis, RedisError, Cmd}
use glide_rust.Scan.{PageSpec, ScanIter, fetch, next_item, new}

module _ {F O W R : Type 0} (redis : Redis F O) (send : Cmd → Io W RedisError (Value F O))
    (page_of : Value F O → Result RedisError (ℕ × List R)) where
  -- What a server sends for a layout from a cursor on, in `n` more pages, up to the world `u`: all
  -- items of the pages in order. It ends at cursor 0, or where a page cannot be fetched.
  pub data Feed (spec : PageSpec) (u : W) : ℕ → ℕ → W → List R → Type 0 where
    finished : {c : ℕ} {w : W} → c ≡ 0 → w ≡ u → Feed spec u 0 c w []
    broken :
        {c : ℕ} {w : W} (e : RedisError)
        → c ≢ 0
        → fetch redis send page_of spec c w ≡ (err e, u)
        → Feed spec u 1 c w []
    page :
        {n c : ℕ} {w : W} {c' : ℕ} {batch : List R} {w' : W} {items : List R}
        → c ≢ 0
        → fetch redis send page_of spec c w ≡ (ok (c', batch), w')
        → Feed spec u n c' w' items
        → Feed spec u (suc n) c w (batch ++ items)

  -- The items that an iterator still owes: its batch, and those of the pages to come.
  pub record Owes (u : W) (n : ℕ) (it : ScanIter R) (w : W) (items : List R) : Type 0 where
    pub later : List R
    pub feed : Feed it.spec u n it.cursor w later
    pub split : items ≡ it.batch ++ later

  -- What one call of `next_item` does, by the items that are owed.
  abbrev pub Yields : W → ℕ → List R → Option (Option R × ScanIter R × W) → Type 0
  Yields u n [] (some (none, it, w)) = (w ≡ u) × (it.batch ≡ [])
  Yields u n (x ∷ xs) (some (some y, it, w)) = (y ≡ x) × ((m : ℕ) × (m < suc n) × Owes u m it w xs)
  Yields u n _ _ = ⊥

  -- The four ways in which a round of `next_item` goes.
  module _ (fuel : ℕ) (it : ScanIter R) (w : W) where
    next_item-item :
        (v : R) (rest : List R)
        → it.batch ≡ v ∷ rest
        → next_item redis send page_of (suc fuel) it w
          ≡ some (some v, record it { batch = rest }, w)
    unfolding next_item
    next_item-item v rest b = ground arith

    next_item-finished :
        it.batch ≡ []
        → it.cursor ≡ 0
        → next_item redis send page_of (suc fuel) it w ≡ some (none, it, w)
    unfolding next_item
    next_item-finished b z = ground arith

    next_item-broken :
        (e : RedisError) (w' : W)
        → it.batch ≡ []
        → it.cursor ≢ 0
        → fetch redis send page_of it.spec it.cursor w ≡ (err e, w')
        → next_item redis send page_of (suc fuel) it w ≡ some (none, it, w')
    unfolding next_item
    next_item-broken e w' b nz failed = ground arith

    next_item-page :
        (c : ℕ) (batch : List R) (w' : W)
        → it.batch ≡ []
        → it.cursor ≢ 0
        → fetch redis send page_of it.spec it.cursor w ≡ (ok (c, batch), w')
        → next_item redis send page_of (suc fuel) it w
          ≡ next_item redis send page_of fuel (record it { cursor = c; batch = batch }) w'
    unfolding next_item
    next_item-page c batch w' b nz got = ground arith

  Yields-suc :
      (u : W) (n : ℕ) (items : List R) (r : Option (Option R × ScanIter R × W))
      → Yields u n items r
      → Yields u (suc n) items r
  Yields-suc u n [] (some (none, it, w)) y = y
  Yields-suc u n (x ∷ xs) (some (some z, it, w)) (e, (m, h, o)) = (e, (m, omega arith, o))
  Yields-suc u n [] (some (some z, it, w)) y = y
  Yields-suc u n [] none y = y
  Yields-suc u n (x ∷ xs) (some (none, it, w)) y = y
  Yields-suc u n (x ∷ xs) none y = y

  next_item_step :
      (spec : PageSpec) (u : W) (fuel : ℕ) (batch : List R) {n c : ℕ} {w : W} {later : List R}
      → n < fuel
      → Feed spec u n c w later
      → Yields u n
          (batch ++ later)
          (next_item redis send page_of fuel (record { spec = spec; cursor = c; batch = batch }) w)
  next_item_step spec u zero batch h feed = elim h [ ]
  next_item_step spec u (suc fuel) (v ∷ rest) {n} {c} {w} {later} h feed =
      rw (next_item-item fuel (record { spec = spec; cursor = c; batch = v ∷ rest }) w v rest refl)
        (refl, (n, omega arith, record { later = later; feed = feed; split = refl }))
  next_item_step spec u (suc fuel) [] {c} {w} h (finished z e) =
      rw (next_item-finished fuel (record { spec = spec; cursor = c; batch = [] }) w refl z)
        (e, refl)
  next_item_step spec u (suc fuel) [] {c} {w} h (broken e nz failed) =
      rw
        (next_item-broken fuel (record { spec = spec; cursor = c; batch = [] }) w e u refl nz
          failed)
        (refl, refl)
  next_item_step spec u (suc fuel) [] {c} {w} h (page {n} {c'} {batch} {w'} {items} nz got feed) =
      let it : ScanIter R = record { spec = spec; cursor = c; batch = [] } in
      rw (next_item-page fuel it w c' batch w' refl nz got)
        (Yields-suc u n (batch ++ items) _ (next_item_step spec u fuel batch (omega arith) feed))

  -- One call with more fuel than pages to come: it gives the first item that is owed and leaves an
  -- iterator that owes the rest, or, if none is owed, gives the end.
  pub next_item-Yields :
      (u : W) (fuel n : ℕ) (it : ScanIter R) (w : W) (items : List R)
      → n < fuel
      → Owes u n it w items
      → Yields u n items (next_item redis send page_of fuel it w)
  next_item-Yields u fuel n it w items h o =
      rw o.split (next_item_step it.spec u fuel it.batch h o.feed)

  -- `while let Some(x) = iter.next_item().await`: all items up to the end, and the world after it.
  unfoldable pub drain : ℕ → ℕ → ScanIter R → W → Option (List R × W)
  drain zero fuel it w = none
  drain (suc k) fuel it w = elim (next_item redis send page_of fuel it w) [
    | none ↦ none
    | some (none, it', w') ↦ some ([], w')
    | some (some x, it', w') ↦ elim (drain k fuel it' w') [
      | none ↦ none
      | some (xs, v) ↦ some (x ∷ xs, v)
    ]
  ]

  -- One round of the loop, given what the later rounds do.
  drain-Yields :
      (u : W) (k fuel n : ℕ) (it : ScanIter R) (w : W)
      → ((m : ℕ) (it' : ScanIter R) (w' : W) (xs : List R)
          → m < fuel
          → length xs < k
          → Owes u m it' w' xs
          → drain k fuel it' w' ≡ some (xs, u))
      → (items : List R) (r : Option (Option R × ScanIter R × W)) → n < fuel
      → length items < suc k
      → next_item redis send page_of fuel it w ≡ r
      → Yields u n items r
      → drain (suc k) fuel it w ≡ some (items, u)
  unfolding drain
  drain-Yields u k fuel n it w later [] (some (none, it', w')) h l e (same, _) =
      rw (e, drain) (rw same)
  drain-Yields u k fuel n it w later (x ∷ xs) (some (some y, it', w')) h l e (same, (m, hm, o)) =
      rw (e, drain) (rw (later m it' w' xs (omega arith) (omega arith) o) (rw same))
  drain-Yields u k fuel n it w later [] (some (some y, it', w')) h l e y' = absurd y'
  drain-Yields u k fuel n it w later [] none h l e y' = absurd y'
  drain-Yields u k fuel n it w later (x ∷ xs) (some (none, it', w')) h l e y' = absurd y'
  drain-Yields u k fuel n it w later (x ∷ xs) none h l e y' = absurd y'

  drain-Owes :
      (u : W) (k fuel n : ℕ) (it : ScanIter R) (w : W) (items : List R)
      → n < fuel
      → length items < k
      → Owes u n it w items
      → drain k fuel it w ≡ some (items, u)
  drain-Owes u zero fuel n it w items h l o = elim l [ ]
  drain-Owes u (suc k) fuel n it w items h l o =
      drain-Yields u k fuel n it w
        (λ m it' w' xs hm lx o'. drain-Owes u k fuel m it' w' xs hm lx o') items
        (next_item redis send page_of fuel it w) h l refl (next_item-Yields u fuel n it w items h o)

  -- A scan whose first page arrives is created, and asking it for items until it ends gives exactly
  -- the items of all pages that the server sends, in order: up to cursor 0, or up to the page that
  -- cannot be fetched. More fuel than pages, and more rounds than items, are enough.
  pub new-drain :
      (prefix suffix : List Bytes) (u w w' : W) (c n k fuel : ℕ) (batch later : List R)
      → let spec : PageSpec = record { prefix = prefix; suffix = suffix } in
        fetch redis send page_of spec 0 w ≡ (ok (c, batch), w')
        → Feed spec u n c w' later
        → n < fuel
        → length (batch ++ later) < k
        → (it : ScanIter R) × (new redis send page_of prefix suffix w ≡ (ok it, w'))
          × (drain k fuel it w' ≡ some (batch ++ later, u))
  unfolding new
  new-drain prefix suffix u w w' c n k fuel batch later got feed h l =
      let spec : PageSpec = record { prefix = prefix; suffix = suffix } in
      let it : ScanIter R = record { spec = spec; cursor = c; batch = batch } in
      (
        it,
        ground arith,
        drain-Owes u k fuel n it w' (batch ++ later) h l
            (record { later = later; feed = feed; split = refl }),
      )

  -- A page that cannot be fetched ends an iteration once only: the iterator is left as it was, so the
  -- next call asks for the same page again and, if that arrives with an item, goes on with it.
  pub next_item_resumes :
      (fuel : ℕ) (it : ScanIter R) (w w' w'' : W) (e : RedisError) (c : ℕ) (x : R) (xs : List R)
      → it.batch ≡ []
      → it.cursor ≢ 0
      → fetch redis send page_of it.spec it.cursor w ≡ (err e, w')
      → fetch redis send page_of it.spec it.cursor w' ≡ (ok (c, x ∷ xs), w'')
      → (next_item redis send page_of (suc fuel) it w ≡ some (none, it, w'))
        × (next_item redis send page_of (suc (suc fuel)) it w'
            ≡ some (some x, record it { cursor = c; batch = xs }, w''))
  next_item_resumes fuel it w w' w'' e c x xs b nz failed got = (
    next_item-broken fuel it w e w' b nz failed,
    next_item-page (suc fuel) it w' c (x ∷ xs) w'' b nz got ∙ next_item-item fuel _ w'' x xs refl,
  )
