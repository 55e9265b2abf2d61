-- ===== src/Report/Counting.antt =====
-- One placed pod entered into the entries of the nodes.
use kubesim.Prelude.{
  ℕ, ◌+◌, ◌≡◌, refl, true, false, not, ◌&&◌, List, [], ◌∷◌, ◌++◌, String, arith, str_eq, eq_iff,
  if◌then◌else◌, Bool-cases, inl, inr,
}
use kubesim.Report.{ReplicasOnNode, bump, is_first, record_pod, instances_sum}

-- No node has two entries.
abbrev pub Distinct : List ReplicasOnNode → Type 0
Distinct [] = Unit
Distinct (s ∷ ss) = (is_first s.node_name ss ≡ true) × Distinct ss

-- The replicas that the entries give to a node.
unfoldable pub replicas_of : String → List ReplicasOnNode → ℕ
replicas_of x [] = 0
replicas_of x (s ∷ ss) = (if str_eq s.node_name x then s.replicas else 0) + replicas_of x ss

module _ (node : String) where
  is_first-bump :
      (x : String) (sums : List ReplicasOnNode) → is_first x (bump node sums) ≡ is_first x sums
  unfolding is_first bump
  is_first-bump x [] = refl
  is_first-bump x (s ∷ ss) = ground (arith, is_first-bump x ss)

  bump-Distinct : (sums : List ReplicasOnNode) → Distinct sums → Distinct (bump node sums)
  unfolding bump
  bump-Distinct [] d = tt
  bump-Distinct (s ∷ ss) d = ground (arith, is_first-bump s.node_name ss, bump-Distinct ss d.1)

  bump_first :
      (x : String) (sums : List ReplicasOnNode) → is_first node sums ≡ true → bump node sums ≡ sums
  unfolding is_first bump
  bump_first x [] h = refl
  bump_first x (s ∷ ss) h = ground (arith, bump_first x ss)

  instances_sum-bump :
      (sums : List ReplicasOnNode)
      → Distinct sums
      → is_first node sums ≡ false
      → instances_sum (bump node sums) ≡ instances_sum sums + 1
  unfolding is_first bump instances_sum
  instances_sum-bump [] d h = ground arith
  instances_sum-bump (s ∷ ss) d h =
      ground (arith, eq_iff s.node_name node, instances_sum-bump ss d.1, bump_first node ss)

  replicas_of-bump :
      (x : String) (sums : List ReplicasOnNode)
      → Distinct sums
      → is_first node sums ≡ false
      → replicas_of x (bump node sums) ≡ replicas_of x sums + (if str_eq node x then 1 else 0)
  unfolding is_first bump replicas_of
  replicas_of-bump x [] d h = ground arith
  replicas_of-bump x (s ∷ ss) d h =
      ground (arith, eq_iff s.node_name node, replicas_of-bump x ss d.1, bump_first node ss)

  is_first-append :
      (x : String) (sums : List ReplicasOnNode)
      → is_first x (sums ++ record { node_name = node; replicas = 1 } ∷ [])
        ≡ (is_first x sums && not (str_eq node x))
  unfolding is_first
  is_first-append x [] = ground arith
  is_first-append x (s ∷ ss) = ground (arith, is_first-append x ss)

  append-Distinct :
      (sums : List ReplicasOnNode)
      → Distinct sums
      → is_first node sums ≡ true
      → Distinct (sums ++ record { node_name = node; replicas = 1 } ∷ [])
  unfolding is_first
  append-Distinct [] d h = (refl, tt)
  append-Distinct (s ∷ ss) d h = ground (
    arith,
    is_first-append s.node_name ss,
    append-Distinct ss d.1,
    eq_iff s.node_name node,
    eq_iff node s.node_name,
  )

  instances_sum-append :
      (sums : List ReplicasOnNode)
      → instances_sum (sums ++ record { node_name = node; replicas = 1 } ∷ [])
        ≡ instances_sum sums + 1
  unfolding instances_sum
  instances_sum-append [] = refl
  instances_sum-append (s ∷ ss) = omega (arith, instances_sum-append ss)

  replicas_of-append :
      (x : String) (sums : List ReplicasOnNode)
      → replicas_of x (sums ++ record { node_name = node; replicas = 1 } ∷ [])
        ≡ replicas_of x sums + (if str_eq node x then 1 else 0)
  unfolding replicas_of
  replicas_of-append x [] = ground arith
  replicas_of-append x (s ∷ ss) = ground (arith, replicas_of-append x ss)

  pub record_pod-Distinct :
      (sums : List ReplicasOnNode) → Distinct sums → Distinct (record_pod node sums)
  unfolding record_pod
  record_pod-Distinct sums d = elim (Bool-cases (is_first node sums)) [
    | inl new ↦ rw (new, bump_first node sums new) (append-Distinct sums d new)
    | inr old ↦ rw old (bump-Distinct sums d)
  ]

  pub instances_sum-record_pod :
      (sums : List ReplicasOnNode)
      → Distinct sums
      → instances_sum (record_pod node sums) ≡ instances_sum sums + 1
  unfolding record_pod
  instances_sum-record_pod sums d = elim (Bool-cases (is_first node sums)) [
    | inl new ↦ rw (new, bump_first node sums new) (instances_sum-append sums)
    | inr old ↦ rw old (instances_sum-bump sums d old)
  ]

  pub replicas_of-record_pod :
      (x : String) (sums : List ReplicasOnNode)
      → Distinct sums
      → replicas_of x (record_pod node sums) ≡ replicas_of x sums + (if str_eq node x then 1 else 0)
  unfolding record_pod
  replicas_of-record_pod x sums d = elim (Bool-cases (is_first node sums)) [
    | inl new ↦ rw (new, bump_first node sums new) (replicas_of-append x sums)
    | inr old ↦ rw old (replicas_of-bump x sums d old)
  ]
