-- ===== src/Profiler/Window.antt =====
-- The rolling window of ThreadPoolBenchmark/ThreadProfiler.h.
use thread_pool_backtesting.Base.{
  ℕ, suc, ◌+◌, ◌-◌, ◌%◌, ◌≤◌, ◌<◌, ◌≡◌, refl, sym, subst, ap, ◌∙◌, false, Bool-cases, inl, inr,
  List, [], ◌∷◌, ◌++◌, arith, length, length-append, ltb, ◌==◌, size_mod,
}
use thread_pool_backtesting.Harness.Doubles.{Double}
use thread_pool_backtesting.Profiler.{
  Snapshot, ThreadProfiler, snapshot_interval, rolling_window, evict, total_threads, total_queue,
  mean, backfill, preliminary, take_snapshot, compute_rolling_averages, latest,
}

module _ {D : Type 0} (d : Double D) where
  -- The snapshots are in the order of their times, all between `low` and `now`.
  abbrev pub Ordered : (low now : ℕ) → List (Snapshot D) → Type 0
  Ordered low now [] = Unit {0}
  Ordered low now (s ∷ snapshots) = (low ≤ s.time) × (s.time ≤ now) × Ordered s.time now snapshots

  Ordered-append :
      (low now : ℕ) (snapshots : List (Snapshot D)) (s : Snapshot D)
      → low ≤ now
      → s.time ≡ now
      → Ordered low now snapshots
      → Ordered low now (snapshots ++ s ∷ [])
  Ordered-append low now [] s l e h = (omega (arith, e), omega (arith, e), tt)
  Ordered-append low now (t ∷ snapshots) s l e h =
      (h.0, h.1, Ordered-append t.time now snapshots s h.1 e h.2)

  Ordered-raise :
      (low low' now : ℕ) (snapshots : List (Snapshot D))
      → low' ≤ low
      → Ordered low now snapshots
      → Ordered low' now snapshots
  Ordered-raise low low' now [] l h = tt
  Ordered-raise low low' now (s ∷ snapshots) l h = (omega (arith, h.0), h.1, h.2)

  -- What is left after an eviction is within the window.
  evict-Ordered :
      (low now : ℕ) (snapshots : List (Snapshot D))
      → Ordered low now snapshots
      → Ordered (now - rolling_window) now (evict d now snapshots)
  unfolding evict
  evict-Ordered low now [] h = tt
  evict-Ordered low now (s ∷ snapshots) h = elim (Bool-cases (ltb rolling_window (now - s.time))) [
    | inl old ↦ rw old (evict-Ordered s.time now snapshots h.2)
    | inr fresh ↦ rw fresh (ground (arith, h.1), h.1, h.2)
  ]

  -- The new snapshot is never evicted.
  evict-last :
      (now : ℕ) (snapshots : List (Snapshot D)) (s : Snapshot D)
      → s.time ≡ now
      → (kept : List (Snapshot D)) × (evict d now (snapshots ++ s ∷ []) ≡ kept ++ s ∷ [])
  unfolding evict
  evict-last now [] s e =
      let fresh : ltb rolling_window (now - s.time) ≡ false = ground (arith, e) in
      ([], rw fresh refl)
  evict-last now (t ∷ snapshots) s e = elim (Bool-cases (ltb rolling_window (now - t.time))) [
    | inl old ↦ let (kept, f) = evict-last now snapshots s e in (kept, rw old f)
    | inr fresh ↦ (t ∷ snapshots, rw fresh refl)
  ]

  backfill-Ordered :
      (low now : ℕ) (a b : D) (snapshots : List (Snapshot D))
      → Ordered low now snapshots
      → Ordered low now (backfill d a b snapshots)
  unfolding backfill
  backfill-Ordered low now a b [] h = tt
  backfill-Ordered low now a b (s ∷ []) h = h
  backfill-Ordered low now a b (s ∷ t ∷ snapshots) h =
      (h.0, h.1, backfill-Ordered s.time now a b (t ∷ snapshots) h.2)

  backfill-totals :
      (x y : ℕ) (a b : D) (snapshots : List (Snapshot D))
      → (total_threads d x (backfill d a b snapshots) ≡ total_threads d x snapshots)
        × (total_queue d y (backfill d a b snapshots) ≡ total_queue d y snapshots)
        × (length (backfill d a b snapshots) ≡ length snapshots)
  unfolding backfill
  backfill-totals x y a b [] = (refl, refl, refl)
  backfill-totals x y a b (s ∷ []) = (refl, refl, refl)
  backfill-totals x y a b (s ∷ t ∷ snapshots) =
      let (e, f, g) =
        backfill-totals ((x + s.thread_count) % size_mod) ((y + s.queue_size) % size_mod) a b
          (t ∷ snapshots) in
      (e, f, ap suc g)

  latest-tail :
      (now : ℕ) (s : Snapshot D) (snapshots : List (Snapshot D))
      → 0 < length snapshots
      → latest d now (s ∷ snapshots) ≡ latest d now snapshots
  unfolding latest
  latest-tail now s [] h = absurd (omega arith)
  latest-tail now s (t ∷ snapshots) h = refl

  latest-backfill :
      (now : ℕ) (a b : D) (kept : List (Snapshot D)) (s : Snapshot D)
      → latest d now (backfill d a b (kept ++ s ∷ []))
        ≡ record s { avg_thread_count = a; avg_queue_size = b }
  unfolding backfill latest
  latest-backfill now a b [] s = refl
  latest-backfill now a b (t ∷ []) s = refl
  latest-backfill now a b (t ∷ u ∷ kept) s =
      latest-tail now t (backfill d a b (u ∷ (kept ++ s ∷ [])))
        (omega (arith, (backfill-totals 0 0 a b (u ∷ (kept ++ s ∷ []))).2))
      ∙ latest-backfill now a b (u ∷ kept) s

  evict-all :
      (now low : ℕ) (snapshots : List (Snapshot D))
      → now - rolling_window ≤ low
      → Ordered low now snapshots
      → evict d now snapshots ≡ snapshots
  unfolding evict
  evict-all now low [] l h = refl
  evict-all now low (s ∷ snapshots) l h =
      let fresh : ltb rolling_window (now - s.time) ≡ false = ground (arith, h.0, h.1) in
      rw fresh refl

  take_snapshot-late :
      (p : ThreadProfiler D) (now threads queued : ℕ)
      → snapshot_interval ≤ now - p.last_snapshot_log
      → take_snapshot d p now threads queued ≡ (
          let ks = evict d now (p.snapshots ++ preliminary d now threads queued ∷ []) in
          record p {
            snapshots =
                backfill d (mean d (total_threads d 0 ks) ks) (mean d (total_queue d 0 ks) ks) ks;
          })
  unfolding take_snapshot
  take_snapshot-late p now threads queued late =
      let late_enough : ltb (now - p.last_snapshot_log) snapshot_interval ≡ false = ground arith in
      rw late_enough refl

  averages-backfill :
      (p : ThreadProfiler D) (a b : D) (ks : List (Snapshot D))
      → 0 < length ks
      → compute_rolling_averages d (record p { snapshots = backfill d a b ks })
        ≡ (mean d (total_threads d 0 ks) ks, mean d (total_queue d 0 ks) ks)
  unfolding compute_rolling_averages
  averages-backfill p a b ks h =
      let (e, f, g) = backfill-totals 0 0 a b ks in
      let not_empty : (length ks == 0) ≡ false = ground arith in
      rw (g, not_empty, e, f)
        (ap
          (λ n. (
            d.over (d.of_nat (total_threads d 0 ks)) (d.of_nat n),
            d.over (d.of_nat (total_queue d 0 ks)) (d.of_nat n),
          ))
          g)

  -- A snapshot taken at least a second after the profiler was made, whose buffer is in the order
  -- of its times: the buffer stays in order and holds only snapshots of the last second up to now,
  -- the last of them the new one, with the averages over the buffer that computeRollingAverages
  -- gives.
  pub take_snapshot_windows :
      (p : ThreadProfiler D) (low now thread_count queue_size : ℕ)
      → snapshot_interval ≤ now - p.last_snapshot_log
      → low ≤ now
      → Ordered low now p.snapshots
      → let q = take_snapshot d p now thread_count queue_size in
        Ordered (now - rolling_window) now q.snapshots
        × (latest d now q.snapshots ≡ record (preliminary d now thread_count queue_size) {
          avg_thread_count = (compute_rolling_averages d q).0;
          avg_queue_size = (compute_rolling_averages d q).1;
        })
  take_snapshot_windows p low now threads queued late l h =
      let s = preliminary d now threads queued in
      let ks = evict d now (p.snapshots ++ s ∷ []) in
      let a = mean d (total_threads d 0 ks) ks in
      let b = mean d (total_queue d 0 ks) ks in
      let ordered =
        evict-Ordered low now (p.snapshots ++ s ∷ [])
          (Ordered-append low now p.snapshots s l refl h) in
      let (kept, e) = evict-last now p.snapshots s refl in
      let some_kept : 0 < length ks = omega (arith, ap length e, length-append kept (s ∷ [])) in
      subst
        (λ (q : ThreadProfiler D).
          Ordered (now - rolling_window) now q.snapshots
          × (latest d now q.snapshots ≡ record s {
            avg_thread_count = (compute_rolling_averages d q).0;
            avg_queue_size = (compute_rolling_averages d q).1;
          }))
        (sym (take_snapshot-late p now threads queued late))
        (
          backfill-Ordered (now - rolling_window) now a b ks ordered,
          rw (averages-backfill p a b ks some_kept)
              (ap (λ xs. latest d now (backfill d a b xs)) e ∙ latest-backfill now a b kept s),
        )

  -- The throttle, which compares with a time that no snapshot changes, holds nothing back once a
  -- second has gone by (the buffer in the order of its times): a second call at the very same time
  -- adds another snapshot.
  pub throttle_lets_all_through :
      (p : ThreadProfiler D) (low now threads queued threads' queued' : ℕ)
      → snapshot_interval ≤ now - p.last_snapshot_log
      → low ≤ now
      → Ordered low now p.snapshots
      → let q = take_snapshot d p now threads queued in
        let r = take_snapshot d q now threads' queued' in
        (q.last_snapshot_log ≡ p.last_snapshot_log)
        × (r.last_snapshot_log ≡ p.last_snapshot_log)
        × (length r.snapshots ≡ suc (length q.snapshots))
  throttle_lets_all_through p low now threads queued threads' queued' late l h =
      let q = take_snapshot d p now threads queued in
      let same =
        ap (λ (q : ThreadProfiler D). q.last_snapshot_log)
          (take_snapshot-late p now threads queued late) in
      let late' : snapshot_interval ≤ now - q.last_snapshot_log = omega (arith, same) in
      let second = take_snapshot-late q now threads' queued' late' in
      let windowed = (take_snapshot_windows p low now threads queued late l h).0 in
      let s = preliminary d now threads' queued' in
      let all =
        evict-all now (now - rolling_window) (q.snapshots ++ s ∷ []) (omega arith)
          (Ordered-append (now - rolling_window) now q.snapshots s (omega arith) refl windowed) in
      let ks = evict d now (q.snapshots ++ s ∷ []) in
      (
        same,
        ap (λ (q : ThreadProfiler D). q.last_snapshot_log) second ∙ same,
        ap (λ (q : ThreadProfiler D). length q.snapshots) second
            ∙ (backfill-totals 0 0 (mean d (total_threads d 0 ks) ks)
                (mean d (total_queue d 0 ks) ks) ks).2
            ∙ ap length all
            ∙ length-append q.snapshots (s ∷ [])
            ∙ omega arith,
      )
