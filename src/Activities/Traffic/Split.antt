-- ===== src/Activities/Traffic/Split.antt =====
-- The replica split: how close it comes to the weight, and that no replica is lost.
use temporalops.Base.{
  ℕ, ◌+◌, ◌-◌, ◌*◌, ◌/◌, ◌≤◌, ◌<◌, ◌≡◌, refl, ap, ◌⊎◌, inl, inr, ℤ, pos, negsuc, ◌-ℤ◌, ◌*ℤ◌,
  to_int32, arith, ◌&&◌, ltb, if◌then◌else◌, Bool-cases,
}
use temporalops.Activities.Traffic.{TrafficInput, at_least_one, canary_share, stable_share, split}

-- The canary's count for n replicas in all and a weight of w percent.
abbrev pub canary_count : ℕ → ℕ → ℕ
canary_count n w = let c = (n * w + 50) / 100 in if ltb c 1 && ltb 0 w then 1 else c

product : (n w : ℕ) → pos n *ℤ pos w ≡ pos (n * w)
unfolding ◌*ℤ◌
product n w = ground arith

product_in_range : (n w : ℕ) → n < 2147483648 → w ≤ 100 → n * w ≤ 214748364700
product_in_range n w h k = grind arith

-- The count is never more than the number of replicas, if there is one.
canary_count-le : (n w : ℕ) → 0 < n → w ≤ 100 → canary_count n w ≤ n
canary_count-le n w h k = let p : n * w ≤ n * 100 = grind arith in ground arith

module _ (overflow : ℤ → ℤ → ℤ) where
  canary_share_lem :
      (n w : ℕ)
      → n < 2147483648
      → w ≤ 100
      → canary_share overflow (pos n) (pos w) ≡ pos (canary_count n w)
  unfolding canary_share
  canary_share_lem n w h k =
      let p : n * w ≤ 214748364700 = product_in_range n w h k in rw (product n w) (ground arith)

  stable_share_lem :
      (n c : ℕ) → n < 2147483648 → c ≤ n → stable_share overflow (pos n) (pos c) ≡ pos (n - c)
  unfolding stable_share ◌-ℤ◌ to_int32
  stable_share_lem n c h k = ground arith

at_least_one-positive : (x : ℤ) (n : ℕ) → at_least_one x ≡ pos n → 0 < n
at_least_one-positive (pos k) n e = ground arith
at_least_one-positive (negsuc k) n e = ground arith

-- How close a count is to w percent of n: off by at most one half, or the one replica that any
-- traffic at all needs.
abbrev pub Rounds : ℕ → ℕ → ℕ → Type 0
Rounds n w c = (n * w < 100 * c + 50) × ((100 * c ≤ n * w + 50) ⊎ (c ≡ 1))

canary_count-Rounds : (n w : ℕ) → Rounds n w (canary_count n w)
canary_count-Rounds n w = (
  ground arith,
  elim (Bool-cases (ltb ((n * w + 50) / 100) 1 && ltb 0 w)) [
    | inl bumped ↦ rw bumped (inr refl)
    | inr kept ↦ rw kept (inl (omega arith))
  ],
)

canary_count-some : (n w : ℕ) → 0 < w → 0 < canary_count n w
canary_count-some n w h = ground arith

module _ (overflow : ℤ → ℤ → ℤ) where
  -- For a weight of w percent, up to one hundred, and n replicas in all (the target, at least one,
  -- and in the range of `int32`), the two counts of `ShiftTraffic` add up to n; the canary's is w
  -- percent of n to the nearest replica, but at least one where the weight is not zero.
  pub split_conserves :
      (input : TrafficInput) (n w : ℕ)
      → at_least_one input.target_replicas ≡ pos n
      → n < 2147483648
      → input.canary_weight ≡ pos w
      → w ≤ 100
      → (c : ℕ) × (d : ℕ) × (split overflow input ≡ (pos c, pos d))
        × (c + d ≡ n)
        × Rounds n w c
        × (0 < w → 0 < c)
  unfolding split
  split_conserves input n w total small weight percent =
      let le : canary_count n w ≤ n =
        canary_count-le n w (at_least_one-positive input.target_replicas n total) percent in
      (
        canary_count n w,
        n - canary_count n w,
        counts le,
        omega arith,
        canary_count-Rounds n w,
        canary_count-some n w,
      )
    where
      counts :
          canary_count n w ≤ n
          → split overflow input ≡ (pos (canary_count n w), pos (n - canary_count n w))
      counts le =
          rw (total, weight, canary_share_lem overflow n w small percent)
            (ap (λ x. (pos (canary_count n w), x))
              (stable_share_lem overflow n (canary_count n w) small le))
