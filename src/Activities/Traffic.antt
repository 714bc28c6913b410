-- ===== src/Activities/Traffic.antt =====
-- internal/activities/traffic.go: the replica split, and its compensation.
pub mod Split
use temporalops.Base.{
  ℕ, suc, ◌+◌, ◌*◌, ◌/◌, ℤ, pos, negsuc, pos_part, neg_part, ◌-ℤ◌, ◌*ℤ◌, ◌<ℤ◌, sub_ℕ, to_int32,
  String, ◌<>◌, Bool, true, false, ◌&&◌, ltb, new_error, Exec, raise, ◌>>=◌, ◌>>◌, if◌then◌else◌,
}
use temporalops.Kube.{Kube}
use temporalops.Client.{World, canary_name, stable_name, scale_deployment}

pub record TrafficInput : Type 0 where
  pub service : String
  pub canary_weight : ℤ
  pub target_replicas : ℤ
  pub simulate_fail : Bool

-- `math.Round(p / 100.0)`: to the nearest, halves away from zero.
abbrev round_hundredth : ℤ → ℤ
round_hundredth (pos n) = pos ((n + 50) / 100)
round_hundredth (negsuc n) = sub_ℕ 0 ((suc n + 50) / 100)

abbrev fits_int32 : ℤ → Bool
fits_int32 x = ltb (pos_part x) 2147483648 && ltb (neg_part x) 2147483649

-- `if x < 1 { x = 1 }`
abbrev pub at_least_one : ℤ → ℤ
at_least_one x = if x <ℤ pos 1 then pos 1 else x

-- `overflow total weight` is the value of `int32(f)` for a float that no int32 holds, which Go
-- leaves to the implementation. Wherever the result fits, the products and the quotient in float64
-- are close enough to round as the exact ones do.
module _ (overflow : ℤ → ℤ → ℤ) where
  unfoldable pub canary_share : ℤ → ℤ → ℤ
  canary_share total weight =
      let share = round_hundredth (total *ℤ weight) in
      let count = if fits_int32 share then share else overflow total weight in
      if count <ℤ pos 1 && pos 0 <ℤ weight then pos 1 else count

  unfoldable pub stable_share : ℤ → ℤ → ℤ
  stable_share total canary =
      let rest = to_int32 (to_int32 total -ℤ canary) in if rest <ℤ pos 0 then pos 0 else rest

  -- The counts that `ShiftTraffic` writes, for the canary and for the stable deployment.
  unfoldable pub split : TrafficInput → ℤ × ℤ
  split input =
      let total = at_least_one input.target_replicas in
      let canary = canary_share total input.canary_weight in (canary, stable_share total canary)

  module _ (K : Kube) where
    unfoldable pub shift_traffic : TrafficInput → Exec (World K) (Unit {0})
    shift_traffic input =
        if input.simulate_fail
        then raise (new_error ("injected traffic-shift failure for " <> input.service))
        else do
          scale_deployment K (canary_name input.service) (split input).0
          scale_deployment K (stable_name input.service) (split input).1

module _ (K : Kube) where
  unfoldable pub shift_traffic_back : TrafficInput → Exec (World K) (Unit {0})
  shift_traffic_back input = do
    scale_deployment K (canary_name input.service) (pos 0)
    scale_deployment K (stable_name input.service) (to_int32 (at_least_one input.target_replicas))
