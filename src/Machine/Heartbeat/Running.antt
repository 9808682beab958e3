-- ===== src/Machine/Heartbeat/Running.antt =====
-- How long a heartbeat scheduler runs, what it reports, and how often it pings.
use tamga_go.Base.{
  sym, ℕ, pos, ◌≡◌, ◌≤◌, refl, ◌∙◌, ap, Bool, true, false, Option, none, some, List, [], ◌∷◌, ◌++◌,
  map, leb_ℤ, ltb_ℤ, arith,
}
use tamga_go.Machine.Heartbeat.{
  default_heartbeat_interval, Scheduler, with_on_tick, apply_all, clamp_interval,
  new_heartbeat_scheduler, Choice, done, tick, notify, run_with, run, run_process,
}
use tamga_go.Text.{Bytes}
use tamga_go.Errors.{Result}
use tamga_go.Http.{Env, History, passed}
use tamga_go.Http.Monad.{M}
use tamga_go.Client.{Client}
use tamga_go.Client.Retry.{second}
use tamga_go.Resource.{Machine, Process, Wire, PolicyAttributes}
use tamga_go.Machine.{ping_heartbeat}
use tamga_go.Machine.Parts.{ping_process}
use tamga_go.Policy.{heartbeat_interval}
use tamga_go.Policy.Intervals.{IsInt32, Serves, window_seconds, heartbeat_interval-Serves}

-- One ping after each of the waits: the history, and the results in order.
unfoldable pub pings : {A : Type 0} → M A → List ℕ → History → History × List (Result A)
pings ping [] h = (h, [])
pings ping (d ∷ ds) h =
    let r = ping (passed d ∷ h) in let rest = pings ping ds r.0 in (rest.0, r.1 ∷ rest.1)

-- The callback, if there is one, has seen every result, failed or not, one by one.
unfoldable pub reported : {A S : Type 0} → Option (Result A → S → S) → List (Result A) → S → S
reported none rs σ = σ
reported (some f) [] σ = σ
reported (some f) (r ∷ rs) σ = reported (some f) rs (f r σ)

reported-cons :
    {A S : Type 0} (on_tick : Option (Result A → S → S)) (r : Result A) (rs : List (Result A))
    (σ : S)
    → reported on_tick rs (notify on_tick r σ) ≡ reported on_tick (r ∷ rs) σ
unfolding reported
reported-cons none r rs σ = refl
reported-cons (some f) r rs σ = refl

reported-nil :
    {A S : Type 0} (on_tick : Option (Result A → S → S)) (σ : S) → σ ≡ reported on_tick [] σ
unfolding reported
reported-nil none σ = refl
reported-nil (some f) σ = refl

-- The run pings after each tick that it receives and reports each result, whatever it is, until it
-- receives the end of the context; it returns then, without looking at what the schedule holds
-- further, and not before.
abbrev pub RunsUntilDone :
    {A S : Type 0}
    → M A
    → Scheduler A S
    → List ℕ
    → List Choice
    → History
    → S
    → (List Choice → History → S → Bool × History × S)
    → Type 0
RunsUntilDone ping s waits rest h σ go =
    let r = pings ping waits h in
    ((d : ℕ)
      → go (map tick waits ++ (done d ∷ rest)) h σ
        ≡ (true, passed d ∷ r.0, reported s.on_tick r.1 σ))
    × (go (map tick waits) h σ ≡ (false, r.0, reported s.on_tick r.1 σ))

run_with-RunsUntilDone :
    {A S : Type 0} (ping : M A) (s : Scheduler A S) (waits : List ℕ) (rest : List Choice)
    (h : History) (σ : S)
    → RunsUntilDone ping s waits rest h σ (run_with ping s)
unfolding run_with pings
run_with-RunsUntilDone ping s [] rest h σ =
    let same = reported-nil s.on_tick σ in
    ((λ d. ap (λ x. (true, passed d ∷ h, x)) same), ap (λ x. (false, h, x)) same)
run_with-RunsUntilDone ping s (w ∷ waits) rest h σ =
    let r = ping (passed w ∷ h) in
    let ps = pings ping waits r.0 in
    let same = reported-cons s.on_tick r.1 ps.1 σ in
    let (ends, goes_on) = run_with-RunsUntilDone ping s waits rest r.0 (notify s.on_tick r.1 σ) in
    (
      λ d. ends d ∙ ap (λ x. (true, passed d ∷ ps.0, x)) same,
      goes_on ∙ ap (λ x. (false, ps.0, x)) same,
    )

module _ (env : Env) (wire : Wire) (c : Client) where
  -- Run of both schedulers pings after each tick that its select receives, and hands each result,
  -- failed or not, in order, to the callback that is set; it returns when its select first receives
  -- the end of the context, and not while it receives ticks.
  pub run-RunsUntilDone :
      {S : Type 0} (s : Scheduler Machine S) (p : Scheduler Process S) (waits : List ℕ)
      (rest : List Choice) (h : History) (σ : S)
      → RunsUntilDone (ping_heartbeat env wire c s.target) s waits rest h σ (run env wire c s)
        × RunsUntilDone
            (ping_process env wire c p.target)
            p
            waits
            rest
            h
            σ
            (run_process env wire c p)
  unfolding run run_process
  run-RunsUntilDone s p waits rest h σ = (
    run_with-RunsUntilDone (ping_heartbeat env wire c s.target) s waits rest h σ,
    run_with-RunsUntilDone (ping_process env wire c p.target) p waits rest h σ,
  )

interval-apply_all :
    {S : Type 0} (fs : List (Result Machine → S → S)) (s : Scheduler Machine S)
    → (apply_all (map with_on_tick fs) s).interval ≡ s.interval
unfolding apply_all with_on_tick
interval-apply_all [] s = refl
interval-apply_all (f ∷ fs) s = interval-apply_all fs (with_on_tick f s)

clamp_interval-second : (default i : ℕ) → second ≤ i → clamp_interval default (pos i) ≡ pos i
clamp_interval-second default i le =
    let a : leb_ℤ (pos i) (pos 0) ≡ false = ground arith in
    let b : ltb_ℤ (pos i) (pos second) ≡ false = ground arith in rw (a, b) refl

-- A scheduler built with the interval of a policy pings at that interval: the constructor changes
-- it in no case. It is a second at least and the policy's window at most, and three pings fit into
-- the window if that has three seconds.
pub new_heartbeat_scheduler-Serves :
    {S : Type 0} (a : PolicyAttributes) (machine_id : Bytes) (fs : List (Result Machine → S → S))
    → IsInt32 a.heartbeat_duration
    → ((new_heartbeat_scheduler machine_id (heartbeat_interval a) (map with_on_tick fs)).interval
        ≡ heartbeat_interval a)
      × Serves (window_seconds a.heartbeat_duration) (heartbeat_interval a)
unfolding new_heartbeat_scheduler
new_heartbeat_scheduler-Serves a machine_id fs int32 =
    let serves = heartbeat_interval-Serves a int32 in
    (
      interval-apply_all fs _
          ∙ ap (clamp_interval default_heartbeat_interval) serves.1
          ∙ clamp_interval-second default_heartbeat_interval serves.0 serves.2
          ∙ sym serves.1,
      serves,
    )
