-- ===== src/Scan/Blocking.antt =====
-- The blocking iterator `SyncScanIter` of src/commands/scan.rs. Its send has the same form as that of
-- the asynchronous client.
use glide_rust.Base.{
  ℕ, zero, suc, Bytes, Bool-cases, true, false, Option, none, some, List, [], ◌∷◌, Result, ok, err,
  Result-cases, ◌≡◌, refl, arith, inl, inr, ◌==◌, ap, sym, ◌∙◌,
}
use glide_rust.Base.Io.{Io, ◌>>=◌, lift}
use glide_rust.Redis.{Value, Redis, RedisError, Cmd}
use glide_rust.Scan.{PageSpec, to_cmd, ScanIter, fetch, new, next_item}

module _ {F O W R : Type 0} (redis : Redis F O) (send : Cmd → Io W RedisError (Value F O))
    (page_of : Value F O → Result RedisError (ℕ × List R)) where
  -- `SyncScanIter::new`; the iterator has the fields of `ScanIter`.
  unfoldable pub sync_new : List Bytes → List Bytes → Io W RedisError (ScanIter R)
  sync_new prefix suffix w =
      let spec : PageSpec = record { prefix = prefix; suffix = suffix } in
      let (reply, w') = send (to_cmd redis spec 0) w in
      elim reply [
        | err e ↦ (err e, w')
        | ok value ↦ elim (page_of value) [
          | err e ↦ (err e, w')
          | ok page ↦ (ok (record { spec = spec; cursor = page.0; batch = page.1 }), w')
        ]
      ]

  -- `SyncScanIter::next`, with the fuel of `next_item`.
  unfoldable pub sync_next : ℕ → ScanIter R → W → Option (Option R × ScanIter R × W)
  sync_next zero it w = none
  sync_next (suc fuel) it w = elim it.batch [
    | v ∷ rest ↦ some (some v, record it { batch = rest }, w)
    | [] ↦ elim (it.cursor == 0) [
      | true ↦ some (none, it, w)
      | false ↦
          let (reply, w') = send (to_cmd redis it.spec it.cursor) w in
          elim reply [
            | err e ↦ some (none, it, w')
            | ok value ↦ elim (page_of value) [
              | err e ↦ some (none, it, w')
              | ok page ↦ sync_next fuel (record it { cursor = page.0; batch = page.1 }) w'
            ]
          ]
    ]
  ]

  -- One page, by the answer to the request and its conversion.
  module _ (spec : PageSpec) (cursor : ℕ) (w : W) where
    fetch_fails :
        (e : RedisError)
        → (send (to_cmd redis spec cursor) w).0 ≡ err e
        → fetch redis send page_of spec cursor w ≡ (err e, (send (to_cmd redis spec cursor) w).1)
    unfolding fetch
    fetch_fails e failed = ground arith

    fetch_reads :
        (value : Value F O)
        → (send (to_cmd redis spec cursor) w).0 ≡ ok value
        → fetch redis send page_of spec cursor w
          ≡ (page_of value, (send (to_cmd redis spec cursor) w).1)
    unfolding fetch
    fetch_reads value sent = ground arith

  sync_new-new :
      (prefix suffix : List Bytes) (w : W)
      → sync_new prefix suffix w ≡ new redis send page_of prefix suffix w
  unfolding sync_new new
  sync_new-new prefix suffix w =
      let spec : PageSpec = record { prefix = prefix; suffix = suffix } in
      let built : ℕ × List R → Io W RedisError (ScanIter R) =
        λ p. lift (ok (record { spec = spec; cursor = p.0; batch = p.1 })) in
      let after : Result RedisError (ℕ × List R) × W → Result RedisError (ScanIter R) × W =
        λ p. ((λ _. p) >>= built) w in
      let w' = (send (to_cmd redis spec 0) w).1 in
      elim (Result-cases (send (to_cmd redis spec 0) w).0) [
        | inr (e, failed) ↦ rw (failed, sync_new) (sym (ap after (fetch_fails spec 0 w e failed)))
        | inl (value, sent) ↦
            let fetched = fetch_reads spec 0 w value sent in
            elim (Result-cases (page_of value)) [
              | inr (e, failed) ↦
                  rw (sent, failed, sync_new) (sym (ap after (fetched ∙ ap (λ r. (r, w')) failed)))
              | inl (page, read) ↦
                  rw (sent, read, sync_new) (sym (ap after (fetched ∙ ap (λ r. (r, w')) read)))
            ]
      ]

  by_batch :
      (fuel : ℕ) (spec : PageSpec) (cursor : ℕ) (batch : List R) (w : W)
      → ((it : ScanIter R) (w : W) → sync_next fuel it w ≡ next_item redis send page_of fuel it w)
      → sync_next (suc fuel) (record { spec = spec; cursor = cursor; batch = batch }) w
        ≡ next_item redis send page_of
            (suc fuel)
            (record { spec = spec; cursor = cursor; batch = batch })
            w
  unfolding sync_next next_item
  by_batch fuel spec cursor (v ∷ rest) w later = refl
  by_batch fuel spec cursor [] w later = elim (Bool-cases (cursor == 0)) [
    | inl done ↦ rw (done, sync_next) (rw (done, next_item) refl)
    | inr more ↦ elim (Result-cases (send (to_cmd redis spec cursor) w).0) [
      | inr (e, failed) ↦
          rw (more, failed, sync_next)
            (rw (more, fetch_fails spec cursor w e failed, next_item)
              (ap (λ p. some (none, record { spec = spec; cursor = cursor; batch = [] }, p.1))
                (sym (fetch_fails spec cursor w e failed))))
      | inl (value, sent) ↦ elim (Result-cases (page_of value)) [
        | inr (e, failed) ↦
            rw (more, sent, failed, sync_next)
              (rw (more, fetch_reads spec cursor w value sent, failed, next_item)
                (ap (λ p. some (none, record { spec = spec; cursor = cursor; batch = [] }, p.1))
                  (sym (fetch_reads spec cursor w value sent))))
        | inl (page, read) ↦
            rw (more, sent, read, sync_next)
              (rw (more, fetch_reads spec cursor w value sent, read, next_item)
                (later (record { spec = spec; cursor = page.0; batch = page.1 }) _
                  ∙ ap
                      (λ p.
                        next_item redis send page_of fuel
                          (record { spec = spec; cursor = page.0; batch = page.1 }) p.1)
                      (sym (fetch_reads spec cursor w value sent))))
      ]
    ]
  ]

  same_next :
      (fuel : ℕ) (it : ScanIter R) (w : W)
      → sync_next fuel it w ≡ next_item redis send page_of fuel it w
  unfolding sync_next next_item
  same_next zero it w = refl
  same_next (suc fuel) it w =
      by_batch fuel it.spec it.cursor it.batch w (λ it' w'. same_next fuel it' w')

  -- The blocking iterator is created as the asynchronous one is, and gives the same items, ends at the
  -- same place and sends the same requests, one call after the other.
  pub sync_next-next_item :
      (prefix suffix : List Bytes) (fuel : ℕ) (it : ScanIter R) (w : W)
      → (sync_new prefix suffix w ≡ new redis send page_of prefix suffix w)
        × (sync_next fuel it w ≡ next_item redis send page_of fuel it w)
  sync_next-next_item prefix suffix fuel it w = (sync_new-new prefix suffix w, same_next fuel it w)
