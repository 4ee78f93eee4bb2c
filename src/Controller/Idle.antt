-- ===== src/Controller/Idle.antt =====
-- `run_until_idle` ends, and it returns only when no Task is open.
use semi_automated_research.Base.{
  ℕ, zero, suc, ◌+◌, ◌<◌, ◌≡◌, inl, inr, false, Bool-cases, arith, any, ltb,
}
use semi_automated_research.Base.Exec.{Result, Result-cases, ok, err, pure, ◌>>=◌}
use semi_automated_research.Compute.Effects.{Providers}
use semi_automated_research.World.{World, look}
use semi_automated_research.Controller.{
  Settings, tick, is_open, Ending, returned, out_of_fuel, idle_loop, run_until_idle,
}

-- How a run of the loop may end: by an error, or with no open Task.
abbrev pub Ended : {W : Type 0} → Result Ending × World W → Type 0
Ended (err e, w) = Unit
Ended (ok returned, w) = any is_open w.session.db.tasks ≡ false
Ended (ok out_of_fuel, w) = ⊥

module _ {W : Type 0} (providers : Providers W) (settings : Settings) (time : ℕ → ℕ)
    (onward : (n : ℕ) → time n < time (n + 1)) where
  idle_loop-Ended :
      (deadline n fuel : ℕ) (w : World W)
      → 0 < fuel
      → deadline < time n + fuel
      → Ended (idle_loop providers settings time deadline n fuel w)
  unfolding idle_loop look pure ◌>>=◌
  idle_loop-Ended deadline n zero w some_fuel enough = absurd (omega arith)
  idle_loop-Ended deadline n (suc fuel) w some_fuel enough =
      elim (Bool-cases (ltb (time n) deadline)) [
        | inr late ↦ rw late tt
        | inl early ↦
            let later = (tick providers settings w).1 in
            rw early (elim (Result-cases (tick providers settings w).0) [
              | inr (e, raised) ↦ rw raised tt
              | inl (t, ran) ↦ elim (Bool-cases (any is_open later.session.db.tasks)) [
                | inr idle ↦ rw (ran, idle) idle
                | inl busy ↦
                    rw (ran, busy)
                      (idle_loop-Ended deadline (n + 1) fuel later (ground (arith, early))
                        (ground (arith, early, onward n)))
              ]
            ])
      ]

  -- Where the clock of the event loop moves on from round to round, more rounds than the time-out has
  -- units of time are enough: `run_until_idle` raises, or it returns with no Task that is PENDING, READY,
  -- RUNNING or VERIFYING.
  pub run_until_idle_ends :
      (timeout fuel : ℕ) (w : World W)
      → timeout < fuel
      → Ended (run_until_idle providers settings time timeout fuel w)
  unfolding run_until_idle
  run_until_idle_ends timeout fuel w enough =
      idle_loop-Ended (time 0 + timeout) 0 fuel w (omega arith) (omega arith)
