-- ===== src/Policy.antt =====
-- policy.go and policy_read.go: a policy's strategies, its heartbeat window, and the reads of it.
-- A strategy is the string that Go's named string type holds.
pub mod Overage
pub mod Intervals
use tamga_go.Base.{
  false, ◌-ℤ◌, ℕ, zero, suc, ℤ, pos, negsuc, ◌+◌, ◌*◌, ◌/◌, ◌%◌, ◌^◌, ◌*ℤ◌, Bool, true, ◌&&◌, ◌||◌,
  Option, none, some, List, [], ◌∷◌, ◌++◌, eqb, ltb, leb_ℤ, ltb_ℤ, wrap64, if◌then◌else◌,
}
use tamga_go.Text.{Bytes, codes, ◌==◌}
use tamga_go.Http.{Env, get}
use tamga_go.Http.Monad.{M, ◌>>=◌, pure}
use tamga_go.Client.{Client}
use tamga_go.Client.Retry.{second}
use tamga_go.Client.Decode.{decode_json_api}
use tamga_go.Resource.{Policy, PolicyAttributes, Wire}

abbrev pub overage_none : Bytes
overage_none = codes "NO_OVERAGE"

abbrev pub overage_125x : Bytes
overage_125x = codes "ALLOW_1_25X_OVERAGE"

abbrev pub overage_15x : Bytes
overage_15x = codes "ALLOW_1_5X_OVERAGE"

abbrev pub overage_2x : Bytes
overage_2x = codes "ALLOW_2X_OVERAGE"

abbrev pub overage_always_allow : Bytes
overage_always_allow = codes "ALWAYS_ALLOW_OVERAGE"

-- How many low bits a number has beyond 53.
unfoldable pub excess : ℕ → ℕ → ℕ
excess zero n = 0
excess (suc fuel) n =
    let rest = excess fuel (n / 2) in if ltb n 9007199254740992 then 0 else suc rest

-- The low bits are rounded away, to the nearest, and to an even number from the middle.
abbrev drop_bits : ℕ → ℕ → ℕ
drop_bits zero n = n
drop_bits (suc e) n =
    let q = n / 2 ^ suc e in
    let r = n % 2 ^ suc e in
    if ltb (2 ^ e) r || (eqb r (2 ^ e) && eqb (q % 2) 1) then (q + 1) * 2 ^ suc e else q * 2 ^ suc e

-- A float64 of 53 significant bits, nearest to a number below 2 ^ 66.
unfoldable pub round53 : ℕ → ℕ
unfolding excess
round53 n = drop_bits (excess 13 n) n

abbrev pub rounded : ℤ → ℤ
rounded (pos n) = pos (round53 n)
rounded (negsuc n) = pos 0 -ℤ pos (round53 (suc n))

-- `float64(count) <= float64(max) * (q / 4)`, both sides counted in quarters.
unfoldable pub float_allows : ℕ → ℤ → ℤ → Bool
unfolding round53
float_allows q count max = leb_ℤ (pos 4 *ℤ rounded count) (rounded (pos q *ℤ rounded max))

-- OverageStrategy.Allows
unfoldable pub allows : Bytes → ℤ → ℤ → Bool
unfolding float_allows
allows s count max =
    if s == overage_125x
    then float_allows 5 count max
    else if s == overage_15x
    then float_allows 6 count max
    else if s == overage_2x
    then float_allows 8 count max
    else if s == overage_always_allow
    then true
    else leb_ℤ count max

-- EffectiveOverageStrategy
unfoldable pub effective_overage_strategy : Bytes → Bytes
effective_overage_strategy raw =
    if raw == overage_125x || raw == overage_15x || raw == overage_2x || raw == overage_always_allow
    then raw
    else overage_none

abbrev revivals : List Bytes
revivals =
    codes "1_MINUTE_REVIVE"
    ∷ codes "2_MINUTE_REVIVE"
    ∷ codes "5_MINUTE_REVIVE"
    ∷ codes "10_MINUTE_REVIVE"
    ∷ codes "15_MINUTE_REVIVE"
    ∷ codes "ALWAYS_REVIVE"
    ∷ []

abbrev is_one_of : Bytes → List Bytes → Bool
is_one_of s [] = false
is_one_of s (x ∷ l) = s == x || is_one_of s l

-- EffectiveResurrectionStrategy
unfoldable pub effective_resurrection_strategy : Bytes → Bytes
effective_resurrection_strategy raw = if is_one_of raw revivals then raw else codes "NO_REVIVE"

-- machineHeartbeatWindow and minHeartbeatInterval, in nanoseconds
abbrev pub machine_heartbeat_window : ℕ
machine_heartbeat_window = 600 * second

abbrev pub min_heartbeat_interval : ℕ
min_heartbeat_interval = second

abbrev pub window_of : Option ℤ → ℤ
window_of none = pos machine_heartbeat_window
window_of (some d) =
    if leb_ℤ d (pos 0) then pos machine_heartbeat_window else wrap64 (d *ℤ pos second)

-- PolicyAttributes.EffectiveHeartbeatWindow
unfoldable pub effective_heartbeat_window : PolicyAttributes → ℤ
unfolding wrap64
effective_heartbeat_window a = window_of a.heartbeat_duration

-- Go's division by 3, towards 0.
abbrev pub third : ℤ → ℤ
third (pos n) = pos (n / 3)
third (negsuc n) = pos 0 -ℤ pos (suc n / 3)

-- PolicyAttributes.HeartbeatInterval
unfoldable pub heartbeat_interval : PolicyAttributes → ℤ
unfolding effective_heartbeat_window
heartbeat_interval a =
    let interval = third (effective_heartbeat_window a) in
    if ltb_ℤ (pos min_heartbeat_interval) interval then interval else pos min_heartbeat_interval

module _ (env : Env) (wire : Wire) (c : Client) where
  open env use {path_escape}

  -- GetPolicy
  unfoldable pub get_policy : Bytes → M Policy
  unfolding decode_json_api
  get_policy policy_id =
      decode_json_api env wire.policy c get (codes "/policies/" ++ path_escape policy_id) none

  -- GetLicensePolicy
  unfoldable pub get_license_policy : Bytes → M Policy
  unfolding decode_json_api
  get_license_policy license_id =
      decode_json_api env wire.policy c get
        (codes "/licenses/" ++ (path_escape license_id ++ codes "/policy")) none

  -- HeartbeatIntervalForLicense
  unfoldable pub heartbeat_interval_for_license : Bytes → M ℤ
  unfolding get_license_policy heartbeat_interval
  heartbeat_interval_for_license license_id = do
    policy ← get_license_policy license_id
    pure (heartbeat_interval policy.attributes)
