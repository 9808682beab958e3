-- ===== src/Examples/Policies.antt =====
-- A policy with a short heartbeat, its scheduler, and its overage.
use tamga_go.Base.{
  ℕ, suc, pos, true, false, none, some, List, [], ◌∷◌, ◌≡◌, ◌*ℤ◌, leb_ℤ, arith, map,
}
use tamga_go.Text.{Bytes, codes}
use tamga_go.Errors.{Result}
use tamga_go.Resource.{Machine, Process, PolicyAttributes}
use tamga_go.Machine.{ping_heartbeat}
use tamga_go.Machine.Parts.{ping_process}
use tamga_go.Policy.{
  allows, effective_overage_strategy, overage_none, overage_125x, overage_15x, overage_2x,
  heartbeat_interval,
}
use tamga_go.Policy.Overage.{allows-exact}
use tamga_go.Policy.Intervals.{Serves, window_seconds}
use tamga_go.Machine.Heartbeat.{
  Scheduler, Choice, tick, with_on_tick, new_heartbeat_scheduler, new_process_heartbeat_scheduler,
  run, run_process,
}
use tamga_go.Machine.Heartbeat.Running.{
  RunsUntilDone, run-RunsUntilDone, new_heartbeat_scheduler-Serves,
}
use tamga_go.Examples.{steady, wire_of, a_client}

abbrev short_heartbeat : PolicyAttributes
short_heartbeat = record {
  check_in_interval = none;
  max_users = none;
  duration = none;
  max_processes = none;
  scheme = none;
  max_cores = none;
  max_machines = some (pos 4);
  heartbeat_duration = some (pos 60);
  check_in_interval_count = none;
  overage_strategy_raw = overage_125x;
  renewal_basis = [];
  updated = [];
  created = [];
  heartbeat_cull_strategy_raw = [];
  heartbeat_resurrection_strategy_raw = [];
  machine_uniqueness_strategy = [];
  expiration_strategy = [];
  expiration_basis = [];
  name = [];
  authentication_strategy = [];
  product_id = [];
  metadata = [];
  use_pool = false;
  encrypted = false;
  floating = true;
  strict = true;
  require_check_in = false;
  protected = false;
  require_heartbeat = true;
}

abbrev count_report : Result Machine → ℕ → ℕ
count_report r n = suc n

abbrev count_process_report : Result Process → ℕ → ℕ
count_process_report r n = suc n

abbrev counting : Scheduler Machine ℕ
counting =
    new_heartbeat_scheduler (codes "m1") (heartbeat_interval short_heartbeat)
      (with_on_tick count_report ∷ [])

abbrev counting_process : Scheduler Process ℕ
counting_process =
    new_process_heartbeat_scheduler (codes "p1") (pos 0) (with_on_tick count_process_report ∷ [])

abbrev waits : List ℕ
waits = 20000000000 ∷ 20000000000 ∷ []

abbrev later : List Choice
later = tick 0 ∷ []

run-RunsUntilDone_example :
    RunsUntilDone
      (ping_heartbeat steady (wire_of [] 1 []) a_client counting.target)
      counting
      waits
      later
      []
      0
      (run steady (wire_of [] 1 []) a_client counting)
    × RunsUntilDone
        (ping_process steady (wire_of [] 1 []) a_client counting_process.target)
        counting_process
        waits
        later
        []
        0
        (run_process steady (wire_of [] 1 []) a_client counting_process)
run-RunsUntilDone_example =
    run-RunsUntilDone steady (wire_of [] 1 []) a_client counting counting_process waits later [] 0

new_heartbeat_scheduler-Serves_example :
    ((new_heartbeat_scheduler
        (codes "m1")
        (heartbeat_interval short_heartbeat)
        (map with_on_tick (count_report ∷ []))).interval
      ≡ heartbeat_interval short_heartbeat)
    × Serves
        (window_seconds short_heartbeat.heartbeat_duration)
        (heartbeat_interval short_heartbeat)
new_heartbeat_scheduler-Serves_example =
    new_heartbeat_scheduler-Serves short_heartbeat (codes "m1") (count_report ∷ [])
      (omega arith, omega arith)

allows-exact_example :
    (allows overage_125x (pos 5) (pos 4) ≡ leb_ℤ (pos 4 *ℤ pos 5) (pos 5 *ℤ pos 4))
    × (allows overage_15x (pos 5) (pos 4) ≡ leb_ℤ (pos 4 *ℤ pos 5) (pos 6 *ℤ pos 4))
    × (allows overage_2x (pos 5) (pos 4) ≡ leb_ℤ (pos 4 *ℤ pos 5) (pos 8 *ℤ pos 4))
    × ((raw : Bytes)
        → effective_overage_strategy raw ≡ overage_none
        → allows raw (pos 5) (pos 4) ≡ leb_ℤ (pos 5) (pos 4))
allows-exact_example =
    allows-exact (pos 5) (pos 4) (omega arith, omega arith) (omega arith, omega arith)
