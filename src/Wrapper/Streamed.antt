-- ===== src/Wrapper/Streamed.antt =====
-- The two streamed strategies (ThreadPoolBenchmark/oneTBB_Wrapper.h:
-- run_task_group_batched_streamed, run_task_group_batched_streamed_affinity, under tryEnqueue).
use thread_pool_backtesting.Base.{
  ℕ, ◌+◌, ◌%◌, ◌<◌, ◌≡◌, refl, ap, true, false, Option, some, List, [], ◌++◌, length, length-append,
  ltb, leb, size_mod, weigh, weigh-append, arith, Bool-cases, inl, inr,
}
use thread_pool_backtesting.Tbb.{Tbb, IsTbb, Partitioner, auto_partitioner, affinity_partitioner}
use thread_pool_backtesting.Wrapper.{
  Wrapper, Strategy, task_group_batched_streamed, task_group_batched_streamed_affinity, fetch_add,
  finish_run, submit, run_task_group_batched_streamed, run_task_group_batched_streamed_affinity,
  dispatch, try_enqueue, is_over_limit, flush_batch_size,
}
use thread_pool_backtesting.Wrapper.Bulk.{for_all-Runs, try_enqueue-some}

module _ {T : Type 0} where
  -- The two streamed strategies, and the buffer of each.
  pub data Streamed : Strategy → (Wrapper T → List T) → Type 0 where
    plain : Streamed task_group_batched_streamed (λ s. s.streamed_buffer)
    affine : Streamed task_group_batched_streamed_affinity (λ s. s.streamed_affinity_buffer)

module _ {T : Type 0} (tbb : Tbb) (law : IsTbb tbb) (w : T → ℕ) where
  submit_lem :
      (s : Wrapper T) (tasks : List T) (p : Partitioner)
      → s.queue_size < size_mod
      → length tasks < size_mod
      → (done : List T) × (submit tbb s tasks p ≡ some (record s { ran = s.ran ++ done }))
        × (weigh w done ≡ weigh w tasks)
  unfolding submit finish_run
  submit_lem s tasks p q n =
      let (ts, e, k) = for_all-Runs tbb law w p tasks in (ts, rw e (ground arith), k)

  -- What a streamed run leaves: each task has run or waits in the buffer, which stays short, and the
  -- counter is where the run found it.
  abbrev pub Streams : (Wrapper T → List T) → Wrapper T → List T → Option (Wrapper T) → Type 0
  Streams buffer s tasks r =
      (s' : Wrapper T) × (r ≡ some s')
      × (weigh w s'.ran + weigh w (buffer s') ≡ weigh w s.ran + weigh w (buffer s) + weigh w tasks)
      × (length (buffer s') < flush_batch_size)
      × (s'.queue_size ≡ s.queue_size)
      × (s'.flush_buffer ≡ s.flush_buffer)
      × (length (buffer s) + length tasks < flush_batch_size → s'.ran ≡ s.ran)

  streamed_lem :
      (s : Wrapper T) (tasks : List T)
      → s.queue_size < size_mod
      → length tasks < size_mod
      → length s.streamed_buffer < flush_batch_size
      → Streams (λ x. x.streamed_buffer) s tasks (run_task_group_batched_streamed tbb s tasks)
  unfolding run_task_group_batched_streamed
  streamed_lem s tasks q n b = elim (Bool-cases (ltb flush_batch_size (length tasks))) [
    | inl large ↦
        let (done, e, k) = submit_lem s tasks auto_partitioner q n in
        (
          record s { ran = s.ran ++ done },
          rw (large, e) refl,
          omega (arith, weigh-append w s.ran done),
          b,
          refl,
          refl,
          λ few. absurd (ground arith),
        )
    | inr small ↦ elim (Bool-cases (leb flush_batch_size (length (s.streamed_buffer ++ tasks)))) [
      | inl full ↦
          let (done, e, k) =
            submit_lem (record s { streamed_buffer = [] }) (s.streamed_buffer ++ tasks)
              auto_partitioner q (ground (arith, length-append s.streamed_buffer tasks)) in
          (
            record s { streamed_buffer = []; ran = s.ran ++ done },
            rw (small, full, e) refl,
            omega (arith, k, weigh-append w s.ran done, weigh-append w s.streamed_buffer tasks),
            omega arith,
            refl,
            refl,
            λ few. absurd (ground (arith, length-append s.streamed_buffer tasks)),
          )
      | inr room ↦ (
        record s { streamed_buffer = s.streamed_buffer ++ tasks },
        rw (small, room) refl,
        omega (arith, weigh-append w s.streamed_buffer tasks),
        ground arith,
        refl,
        refl,
        λ _. refl,
      )
    ]
  ]

  affinity_lem :
      (s : Wrapper T) (tasks : List T)
      → s.queue_size < size_mod
      → length tasks < size_mod
      → length s.streamed_affinity_buffer < flush_batch_size
      → Streams
          (λ x. x.streamed_affinity_buffer)
          s
          tasks
          (run_task_group_batched_streamed_affinity tbb s tasks)
  unfolding run_task_group_batched_streamed_affinity
  affinity_lem s tasks q n b = elim (Bool-cases (ltb flush_batch_size (length tasks))) [
    | inl large ↦
        let (done, e, k) = submit_lem s tasks affinity_partitioner q n in
        (
          record s { ran = s.ran ++ done },
          rw (large, e) refl,
          omega (arith, weigh-append w s.ran done),
          b,
          refl,
          refl,
          λ few. absurd (ground arith),
        )
    | inr small ↦
        elim (Bool-cases (leb flush_batch_size (length (s.streamed_affinity_buffer ++ tasks)))) [
          | inl full ↦
              let (done, e, k) =
                submit_lem (record s { streamed_affinity_buffer = [] })
                  (s.streamed_affinity_buffer ++ tasks) auto_partitioner q
                  (ground (arith, length-append s.streamed_affinity_buffer tasks)) in
              (
                record s { streamed_affinity_buffer = []; ran = s.ran ++ done },
                rw (small, full, e) refl,
                omega (
                  arith,
                  k,
                  weigh-append w s.ran done,
                  weigh-append w s.streamed_affinity_buffer tasks,
                ),
                omega arith,
                refl,
                refl,
                λ few. absurd (ground (arith, length-append s.streamed_affinity_buffer tasks)),
              )
          | inr room ↦ (
            record s { streamed_affinity_buffer = s.streamed_affinity_buffer ++ tasks },
            rw (small, room) refl,
            omega (arith, weigh-append w s.streamed_affinity_buffer tasks),
            ground arith,
            refl,
            refl,
            λ _. refl,
          )
        ]
  ]

  dispatch-Streams :
      {strategy : Strategy} {buffer : Wrapper T → List T} (s : Wrapper T) (tasks : List T)
      → Streamed strategy buffer
      → s.queue_size < size_mod
      → length tasks < size_mod
      → length (buffer s) < flush_batch_size
      → Streams buffer s tasks (dispatch tbb s tasks strategy)
  unfolding dispatch
  dispatch-Streams s tasks plain q n b = streamed_lem s tasks q n b
  dispatch-Streams s tasks affine q n b = affinity_lem s tasks q n b

  raised-buffer :
      {strategy : Strategy} {buffer : Wrapper T → List T} (s : Wrapper T) (k : ℕ)
      → Streamed strategy buffer
      → buffer (record s { queue_size = k }) ≡ buffer s
  raised-buffer s k plain = refl
  raised-buffer s k affine = refl

  -- A call of tryEnqueue with a streamed strategy and at least one task (fewer than 2^64), within
  -- the limit and with fewer than 64 tasks in the buffer: it reports success and each task has run
  -- or waits in the strategy's buffer, which stays below 64 tasks (below that, none has run); but
  -- the counter stays raised by the number of tasks, since only the streamed function's own
  -- addition is taken back.
  pub streaming_leaves_counter :
      {strategy : Strategy} {buffer : Wrapper T → List T} (s : Wrapper T) (tasks : List T)
      → Streamed strategy buffer
      → 0 < length tasks
      → length tasks < size_mod
      → is_over_limit s (length tasks) ≡ false
      → length (buffer s) < flush_batch_size
      → (s' : Wrapper T) × (try_enqueue tbb s tasks strategy ≡ some (s', true))
        × (weigh w s'.ran + weigh w (buffer s')
            ≡ weigh w s.ran + weigh w (buffer s) + weigh w tasks)
        × (length (buffer s') < flush_batch_size)
        × (s'.queue_size ≡ (s.queue_size + length tasks) % size_mod)
        × (s'.flush_buffer ≡ s.flush_buffer)
        × (length (buffer s) + length tasks < flush_batch_size → s'.ran ≡ s.ran)
  streaming_leaves_counter {strategy} {buffer} s tasks st some_tasks n fits b =
      let raised = record s { queue_size = fetch_add s.queue_size (length tasks) } in
      let same = raised-buffer s (fetch_add s.queue_size (length tasks)) st in
      let (s', e, kept, short, size, flush, few) =
        dispatch-Streams raised tasks st (omega arith) n (rw same b) in
      (
        s',
        try_enqueue-some tbb s s' tasks strategy some_tasks fits e,
        omega (arith, kept, ap (weigh w) same),
        short,
        size,
        flush,
        λ h. few (rw same h),
      )
