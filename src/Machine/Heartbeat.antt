-- ===== src/Machine/Heartbeat.antt =====
-- machine.go and process_read.go: the heartbeat schedulers. What a callback does to the program
-- around it is a function on a state `S` of the caller's own.
pub mod Running
use tamga_go.Base.{
  ℕ, ℤ, pos, ◌*◌, ◌/◌, Bool, true, false, Option, none, some, List, [], ◌∷◌, leb_ℤ, ltb_ℤ,
  if◌then◌else◌,
}
use tamga_go.Text.{Bytes}
use tamga_go.Errors.{Result}
use tamga_go.Http.{Env, History, passed}
use tamga_go.Http.Monad.{M}
use tamga_go.Client.{Client}
use tamga_go.Client.Retry.{second}
use tamga_go.Resource.{Machine, Process, Wire}
use tamga_go.Machine.{ping_heartbeat}
use tamga_go.Machine.Parts.{ping_process, delete_process}
use tamga_go.Policy.{machine_heartbeat_window, min_heartbeat_interval}

-- DefaultHeartbeatInterval, in nanoseconds
abbrev pub default_heartbeat_interval : ℕ
default_heartbeat_interval = machine_heartbeat_window / 3

abbrev pub process_heartbeat_window : ℕ
process_heartbeat_window = 30 * second

abbrev pub default_process_heartbeat_interval : ℕ
default_process_heartbeat_interval = process_heartbeat_window / 3

-- HeartbeatScheduler and ProcessHeartbeatScheduler; `target` is machineID or processID.
pub record Scheduler (A S : Type 0) : Type 0 where
  pub on_tick : Option (Result A → S → S)
  pub target : Bytes
  pub interval : ℤ

abbrev pub SchedulerOption : Type 0 → Type 0 → Type 0
SchedulerOption A S = Scheduler A S → Scheduler A S

-- WithHeartbeatOnTick and WithProcessHeartbeatOnTick
unfoldable pub with_on_tick : {A S : Type 0} → (Result A → S → S) → SchedulerOption A S
with_on_tick f s = record s { on_tick = some f }

unfoldable pub apply_all :
    {A S : Type 0} → List (SchedulerOption A S) → Scheduler A S → Scheduler A S
apply_all [] s = s
apply_all (opt ∷ opts) s = apply_all opts (opt s)

abbrev pub clamp_interval : ℕ → ℤ → ℤ
clamp_interval default interval =
    if leb_ℤ interval (pos 0)
    then pos default
    else if ltb_ℤ interval (pos min_heartbeat_interval)
    then pos min_heartbeat_interval
    else interval

abbrev scheduler : {A S : Type 0} → Bytes → ℤ → List (SchedulerOption A S) → Scheduler A S
scheduler target interval opts =
    apply_all opts (record { on_tick = none; target = target; interval = interval })

-- NewHeartbeatScheduler
unfoldable pub new_heartbeat_scheduler :
    {S : Type 0} → Bytes → ℤ → List (SchedulerOption Machine S) → Scheduler Machine S
unfolding apply_all
new_heartbeat_scheduler machine_id interval opts =
    scheduler machine_id (clamp_interval default_heartbeat_interval interval) opts

-- NewProcessHeartbeatScheduler
unfoldable pub new_process_heartbeat_scheduler :
    {S : Type 0} → Bytes → ℤ → List (SchedulerOption Process S) → Scheduler Process S
unfolding apply_all
new_process_heartbeat_scheduler process_id interval opts =
    scheduler process_id (clamp_interval default_process_heartbeat_interval interval) opts

-- What `select` receives in a round of Run, and the nanoseconds until then.
pub data Choice : Type 0 where
  done : ℕ → Choice
  tick : ℕ → Choice

abbrev pub notify : {A S : Type 0} → Option (Result A → S → S) → Result A → S → S
notify none r s = s
notify (some f) r s = f r s

-- The loop of Run over the rounds of a schedule: whether it returned, and what it left behind. The
-- error that it returns is always the context's.
unfoldable pub run_with :
    {A S : Type 0} → M A → Scheduler A S → List Choice → History → S → Bool × History × S
run_with ping s [] h σ = (false, h, σ)
run_with ping s (done d ∷ choices) h σ = (true, passed d ∷ h, σ)
run_with ping s (tick d ∷ choices) h σ =
    let r = ping (passed d ∷ h) in run_with ping s choices r.0 (notify s.on_tick r.1 σ)

module _ (env : Env) (wire : Wire) (c : Client) where
  -- (*HeartbeatScheduler).Run
  unfoldable pub run :
      {S : Type 0} → Scheduler Machine S → List Choice → History → S → Bool × History × S
  unfolding run_with ping_heartbeat
  run s = run_with (ping_heartbeat env wire c s.target) s

  -- (*ProcessHeartbeatScheduler).Run
  unfoldable pub run_process :
      {S : Type 0} → Scheduler Process S → List Choice → History → S → Bool × History × S
  unfolding run_with ping_process
  run_process s = run_with (ping_process env wire c s.target) s

  -- (*ProcessHeartbeatScheduler).Dispose
  unfoldable pub dispose : {S : Type 0} → Scheduler Process S → M (Unit {0})
  unfolding delete_process
  dispose s = delete_process env wire c s.target
