-- ===== src/Runners/Play.antt =====
-- Running a session of ThreadPoolBenchmark/main.cpp along a given order of moves, for examples.
use thread_pool_backtesting.Base.{ℕ, ◌≡◌, refl, false, Option, none, some, List, [], ◌∷◌, dec_lt}
use thread_pool_backtesting.Pool.{
  ThreadPool, returned, Request, CallerPc, outside, work, begin, continue,
}
use thread_pool_backtesting.Runners.Session.{
  Move, worker_moves, main_begins, main_continues, Session, opened, moved,
}

-- Who moves next: a worker, whose task returns if it is at one, or the main thread.
pub data Turn : Type 0 where
  worker : ℕ → Turn
  main_thread : Turn

pub record Played (T : Type 0) (n : ℕ) (program : List (Request T)) : Type 0 where
  pub pool : ThreadPool T
  pub rest : List (Request T)
  pub session : Session n program pool rest

module _ {T : Type 0} {n : ℕ} {program : List (Request T)} where
  advance :
      (s : Played T n program) (o : Option (ThreadPool T))
      → ((q : ThreadPool T) → o ≡ some q → Move s.pool s.rest q s.rest)
      → Played T n program
  advance s none move = s
  advance s (some q) move = record {
    pool = q;
    rest = s.rest;
    session = moved s.session (move q refl);
  }

  main_turn :
      (s : Played T n program) (c : CallerPc T) (calls : List (Request T))
      → s.pool.callers 0 ≡ c
      → s.rest ≡ calls
      → Played T n program
  unfolding advance
  main_turn s outside (r ∷ rest) out e = record {
    pool = begin s.pool 0 r;
    rest = rest;
    session = moved s.session (main_begins r e out refl);
  }
  main_turn s _ _ out e = advance s (continue s.pool 0) (λ q h. main_continues h refl)

  -- A turn that cannot be taken changes nothing.
  take_turn : Played T n program → Turn → Played T n program
  unfolding dec_lt advance main_turn
  take_turn s main_thread = main_turn s (s.pool.callers 0) s.rest refl refl
  take_turn s (worker i) = elim (dec_lt i s.pool.current_threads) [
    | yes lt ↦ advance s (work s.pool i returned) (λ q h. worker_moves i returned lt h refl)
    | no _ ↦ s
  ]

  unfoldable pub play : Played T n program → List Turn → Played T n program
  unfolding take_turn
  play s [] = s
  play s (t ∷ ts) = play (take_turn s t) ts

-- A pool of `n` workers, just constructed, and the calls before the main thread.
unfoldable pub open_session : {T : Type 0} (n : ℕ) (program : List (Request T)) → Played T n program
open_session n program = record { pool = _; rest = program; session = opened false false "pool" }
