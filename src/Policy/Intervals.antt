-- ===== src/Policy/Intervals.antt =====
-- The heartbeat window and interval that a policy calls for.
use tamga_go.Base.{
  ℕ, zero, suc, ℤ, pos, negsuc, ◌+◌, ◌*◌, ◌/◌, ◌<◌, ◌≤◌, ◌≡◌, refl, ◌*ℤ◌, true, false, Option, none,
  some, Bool-cases, inl, inr, leb_ℤ, ltb_ℤ, pos_part, neg_part, arith, if◌then◌else◌,
  wrap64-InInt64,
}
use tamga_go.Resource.{PolicyAttributes}
use tamga_go.Client.Retry.{second}
use tamga_go.Policy.{effective_heartbeat_window, heartbeat_interval, window_of}

-- An int32, where the policy sets one.
abbrev pub IsInt32 : Option ℤ → Type 0
IsInt32 none = Unit
IsInt32 (some d) = (pos_part d < 2147483648) × (neg_part d ≤ 2147483648)

-- The seconds that the server waits for a machine of the policy.
abbrev pub window_seconds : Option ℤ → ℕ
window_seconds none = 600
window_seconds (some (pos zero)) = 600
window_seconds (some (pos (suc d))) = suc d
window_seconds (some (negsuc d)) = 600

times_second : (d : ℕ) → pos (suc d) *ℤ pos second ≡ pos (suc d * second)
times_second d = ground arith

window_of-seconds : (o : Option ℤ) → IsInt32 o → window_of o ≡ pos (window_seconds o * second)
window_of-seconds none i = refl
window_of-seconds (some (pos zero)) i = refl
window_of-seconds (some (pos (suc d))) (p, n) =
    let t : leb_ℤ (pos (suc d)) (pos 0) ≡ false = ground arith in
    rw (t, times_second d) (wrap64-InInt64 (pos (suc d * second)) (omega arith, omega arith))
window_of-seconds (some (negsuc d)) i =
    let t : leb_ℤ (negsuc d) (pos 0) ≡ true = ground arith in rw t refl

-- What an interval keeps of a window of `secs` seconds.
abbrev pub Serves : ℕ → ℤ → Type 0
Serves secs interval =
    (i : ℕ) × (interval ≡ pos i)
    × (second ≤ i)
    × (i ≤ secs * second)
    × (3 ≤ secs → 3 * i ≤ secs * second)

pub effective_heartbeat_window-seconds :
    (a : PolicyAttributes)
    → IsInt32 a.heartbeat_duration
    → effective_heartbeat_window a ≡ pos (window_seconds a.heartbeat_duration * second)
unfolding effective_heartbeat_window
effective_heartbeat_window-seconds a i = window_of-seconds a.heartbeat_duration i

window_seconds-positive : (o : Option ℤ) → 1 ≤ window_seconds o
window_seconds-positive none = omega arith
window_seconds-positive (some (pos zero)) = omega arith
window_seconds-positive (some (pos (suc d))) = omega arith
window_seconds-positive (some (negsuc d)) = omega arith

at_least_second : ℤ → ℤ
at_least_second t = if ltb_ℤ (pos second) t then t else pos second

at_least_second-Serves :
    (s t : ℕ)
    → 1 ≤ s
    → t * 3 ≤ s * second
    → s * second < t * 3 + 3
    → Serves s (at_least_second (pos t))
unfolding at_least_second
at_least_second-Serves s t one le lt = elim (Bool-cases (ltb_ℤ (pos second) (pos t))) [
  | inl y ↦ rw y (t, refl, ground arith, omega arith, λ three. omega arith)
  | inr n ↦ rw n (second, refl, omega arith, omega arith, λ three. omega arith)
]

pub heartbeat_interval-Serves :
    (a : PolicyAttributes)
    → IsInt32 a.heartbeat_duration
    → Serves (window_seconds a.heartbeat_duration) (heartbeat_interval a)
unfolding heartbeat_interval at_least_second
heartbeat_interval-Serves a i =
    let s = window_seconds a.heartbeat_duration in
    let t = s * second / 3 in
    let le : t * 3 ≤ s * second = omega arith in
    let lt : s * second < t * 3 + 3 = omega arith in
    rw (effective_heartbeat_window-seconds a i)
      (at_least_second-Serves s t (window_seconds-positive a.heartbeat_duration) le lt)
