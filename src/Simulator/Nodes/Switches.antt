-- ===== src/Simulator/Nodes/Switches.antt =====
-- The sizes of the access switches.
use kubesim.Prelude.{
  ℕ, zero, suc, ◌+◌, ◌*◌, ◌/◌, ◌%◌, ◌≤◌, ◌<◌, ◌≡◌, List, [], ◌∷◌, ◌++◌, arith, sum, sum-append,
  length, length-append, All, replicate,
}
use kubesim.Simulator.Nodes.{access_num, full_switches, build_rules_node, build_node_switches}

sum-replicate : (n k : ℕ) → sum (replicate n k) ≡ n * k
sum-replicate zero k = omega arith
sum-replicate (suc n) k = grind (arith, sum-replicate n k)

length-replicate : (n k : ℕ) → length (replicate n k) ≡ n
length-replicate zero k = omega arith
length-replicate (suc n) k = omega (arith, length-replicate n k)

-- The sizes of a switch that is used.
abbrev pub Fits : List ℕ → Type 0
Fits = All (λ size. size ≤ access_num)

append-Fits : (xs ys : List ℕ) → Fits xs → Fits ys → Fits (xs ++ ys)
append-Fits [] ys f g = g
append-Fits (x ∷ xs) ys f g = (f.0, append-Fits xs ys f.1 g)

replicate-Fits : (n : ℕ) → Fits (replicate n access_num)
replicate-Fits zero = tt
replicate-Fits (suc n) = (omega arith, replicate-Fits n)

sum-full_switches : (n : ℕ) → sum (full_switches n) ≡ n
sum-full_switches n = ground (
  arith,
  sum-append (replicate (n / access_num) access_num) ((n % access_num) ∷ []),
  sum-append (replicate (n / access_num) access_num) [],
  sum-replicate (n / access_num) access_num,
)

full_switches-Fits : (n : ℕ) → Fits (full_switches n)
full_switches-Fits n = ground (
  arith,
  append-Fits (replicate (n / access_num) access_num) ((n % access_num) ∷ []),
  append-Fits (replicate (n / access_num) access_num) [],
  replicate-Fits (n / access_num),
)

length-full_switches :
    (n : ℕ)
    → (n ≤ length (full_switches n) * access_num)
      × (length (full_switches n) * access_num < n + access_num)
length-full_switches n = ground (
  arith,
  length-append (replicate (n / access_num) access_num) ((n % access_num) ∷ []),
  length-append (replicate (n / access_num) access_num) [],
  length-replicate (n / access_num) access_num,
)

-- Both strategies split a number of nodes into access switches that hold all of them, none of more
-- than 45 nodes; the second uses as few switches as can hold them.
pub switches_lem :
    (n : ℕ)
    → ((sum (build_rules_node n) ≡ n) × Fits (build_rules_node n))
      × ((sum (build_node_switches n) ≡ n) × Fits (build_node_switches n))
      × ((n ≤ length (build_node_switches n) * access_num)
          × (length (build_node_switches n) * access_num < n + access_num))
unfolding build_rules_node build_node_switches
switches_lem n = (
  (ground (arith, sum-full_switches n), ground (arith, full_switches-Fits n)),
  (sum-full_switches n, full_switches-Fits n),
  length-full_switches n,
)
