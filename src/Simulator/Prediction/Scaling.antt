-- ===== src/Simulator/Prediction/Scaling.antt =====
-- The first upper bound of the search.
use kubesim.Prelude.{
  ℕ, zero, suc, ◌+◌, ◌*◌, ◌/◌, ◌≤◌, ◌<◌, ◌≡◌, inl, refl, Bool, true, ◌&&◌, arith, ◌==◌, ==_iff, leb,
  if◌then◌else◌,
}
use kubesim.Simulator.Prediction.{scale, generate_max_node, first_bounds}
use kubesim.Simulator.Prediction.Decision.{Sound}

-- A test on `count` numbers from `start` on, by evaluation.
all_from : ℕ → ℕ → (ℕ → Bool) → Bool
all_from zero start test = true
all_from (suc count) start test = test start && all_from count (start + 1) test

all_from_sound :
    (count start : ℕ) (test : ℕ → Bool) (n : ℕ)
    → all_from count start test ≡ true
    → start ≤ n
    → n < start + count
    → test n ≡ true
unfolding all_from
all_from_sound zero start test n h k l = absurd (omega arith)
all_from_sound (suc count) start test n h k l =
    ground (arith, all_from_sound count (start + 1) test n)

tenths : ℕ → ℕ → ℕ → Bool
tenths mantissa factor n = scale mantissa n == factor * n / 10

six_fifths : all_from 900 101 (tenths 5404319552844595 12) ≡ true
unfolding all_from tenths scale
six_fifths = refl

thirteen_tenths : all_from 2000 1001 (tenths 5854679515581645 13) ≡ true
unfolding all_from tenths scale
thirteen_tenths = refl

scale-tenths :
    (n : ℕ)
    → ((100 < n) → (n ≤ 1000) → scale 5404319552844595 n ≡ 12 * n / 10)
      × ((1000 < n) → (n ≤ 3000) → scale 5854679515581645 n ≡ 13 * n / 10)
unfolding tenths
scale-tenths n = (
  (λ h k.
      (==_iff _ _).0
        (all_from_sound 900 101 (tenths 5404319552844595 12) n six_fifths h (omega arith))),
  (λ h k.
      (==_iff _ _).0
        (all_from_sound 2000 1001 (tenths 5854679515581645 13) n thirteen_tenths h (omega arith))),
)

-- Up to 3000 nodes the rounding of Go's floats is harmless: the first upper bound is 10, twice, 1.2
-- times or 1.3 times the lower one, rounded down to a whole number of nodes.
pub generate_max_node_lem :
    (n : ℕ)
    → n ≤ 3000
    → generate_max_node n ≡ (
        if leb n 1
        then 10
        else if leb n 100
        then 2 * n
        else if leb n 1000
        then 12 * n / 10
        else 13 * n / 10)
unfolding generate_max_node
generate_max_node_lem n h = ground (arith, (scale-tenths n).0, (scale-tenths n).1)

generate_max_node-ge : (n : ℕ) → n ≤ 3000 → n + 2 ≤ generate_max_node n
generate_max_node-ge n h = ground (arith, generate_max_node_lem n h)

-- So the search starts from sound bounds, whatever the trials will show.
pub first_bounds-Sound : (go : ℕ → Bool) (n : ℕ) → n ≤ 3000 → Sound go (first_bounds n)
unfolding first_bounds
first_bounds-Sound go n h = record {
  low = omega arith;
  gap = generate_max_node-ge n h;
  high = omega arith;
  middle = refl;
  min_tried = inl refl;
  max_tried = inl refl;
}
