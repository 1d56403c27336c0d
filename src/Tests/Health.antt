-- ===== src/Tests/Health.antt =====
-- The theorems about health checks at small histories.
use fast_vip.Prelude.{
  pos, Bool, true, false, ◌&&◌, ◌||◌, List, [], ◌∷◌, ◌≡◌, refl, inl, ltb, leb, replicate, ◌++◌,
  some, written_order, arith, ◌+◌, nat_eq,
}
use fast_vip.Health.{ServiceCheckConfig, BackendStatus, new_manager, tcp_checker}
use fast_vip.Health.Hysteresis
use fast_vip.Health.Hysteresis.{IsSettled, trailing, fresh}
use fast_vip.Health.Tasks.{IsPaired}
use fast_vip.Health.Targets
use fast_vip.Health.Targets.{Event, targets, result, stops}
use fast_vip.Config.{ServiceConfig}
use fast_vip.Tests.Data.{small_net, web, checked}

-- Three failures take a backend down, two successes bring it up.
abbrev three_two : ServiceCheckConfig
three_two = record {
  checker = some (tcp_checker (pos 5_000_000_000));
  interval = pos 10_000_000_000;
  fail_count = pos 3;
  rise_count = pos 2;
  enabled = true;
}

abbrev once_failed : BackendStatus
once_failed = record (fresh "10.0.0.2:80" 0) { consecutive_fails = 1 }

once_failed-IsSettled : IsSettled 3 2 once_failed
once_failed-IsSettled = record {
  one_run = ground arith;
  while_up = λ e. ground arith;
  while_down = λ e. ground arith;
}

abbrev down : BackendStatus
down = record (fresh "10.0.0.2:80" 0) { healthy = false; consecutive_ok = 1 }

down-IsSettled : IsSettled 3 2 down
down-IsSettled = record {
  one_run = inl refl;
  while_up = λ e. ground arith;
  while_down = λ e. ground arith;
}

healthy-run_failures_example :
    (Hysteresis.run three_two (replicate 2 true) once_failed).healthy ≡ (true && ltb (1 + 2) 3)
healthy-run_failures_example =
    Hysteresis.healthy-run_failures three_two 3 2 refl refl (ground arith) (ground arith) 2
      once_failed once_failed-IsSettled

healthy-run_successes_example :
    (Hysteresis.run three_two (replicate 1 false) down).healthy ≡ (false || leb 2 (1 + 1))
healthy-run_successes_example =
    Hysteresis.healthy-run_successes three_two 3 2 refl refl (ground arith) (ground arith) 1 down
      down-IsSettled

abbrev history : List Bool
history = true ∷ false ∷ true ∷ true ∷ []

counters-run_example :
    ((Hysteresis.run three_two history once_failed).consecutive_fails ≡ trailing true 1 history)
    × ((Hysteresis.run three_two history once_failed).consecutive_ok ≡ trailing false 0 history)
counters-run_example = Hysteresis.counters-run three_two history once_failed

verdict_change_example :
    let before = Hysteresis.run three_two history (fresh "10.0.0.2:80" 0) in
    let after = Hysteresis.run three_two (history ++ true ∷ []) (fresh "10.0.0.2:80" 0) in
    (before.healthy ≡ true → after.healthy ≡ false → trailing true 0 (history ++ true ∷ []) ≡ 3)
    × (before.healthy ≡ false → after.healthy ≡ true → trailing false 0 (history ++ true ∷ []) ≡ 2)
verdict_change_example =
    Hysteresis.verdict_change three_two 3 2 refl refl (ground arith) (ground arith) history true
      "10.0.0.2:80" 0

abbrev watched : ServiceConfig
watched = record web { health_check = record checked { enabled = some true } }

abbrev events : List Event
events = targets (watched ∷ []) ∷ result "10.0.0.2:80" true three_two ∷ []

run-IsPaired_example : IsPaired (
    Targets.run small_net written_order
      (targets (watched ∷ []) ∷ targets [] ∷ stops ∷ [])
      new_manager)
run-IsPaired_example =
    Targets.run-IsPaired small_net written_order (targets (watched ∷ []) ∷ targets [] ∷ stops ∷ [])

after_events : IsPaired (Targets.run small_net written_order events new_manager)
after_events = Targets.run-IsPaired small_net written_order events
