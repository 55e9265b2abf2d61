-- ===== src/Mirror/Watch/Contents.antt =====
-- What the watches make of the fake cluster, seen as a partial function from keys to objects.
use mathlib.Core.Path.{fun_ext}
use kubesim.Prelude.{
  ◌≡◌, refl, Bool, true, false, List, [], ◌∷◌, String, arith, eq_iff, Option-cases, inl, inr, All,
  All-of, All-mono, ap, ◌∙◌,
}
use kubesim.Prelude.Exec.{Outcome, done, panics, Exec}
use kubesim.Platform.{Platform, Resource}
use kubesim.Simulator.{Kubesim}
use kubesim.Simulator.Pods.{change}
use kubesim.Mirror.Watch.{
  Value, object, final_state_unknown, other, Call, adds, deletes, updates, on_add, on_delete,
  on_node_update, on_pod_update, watch_objects, watch_nodes, watch_pods, run_calls,
}
use kubesim.Mirror.Watch.Views.{
  View, add_view, delete_view, update_view, follow_objects, follow_nodes, follow_pods, follow,
  BringsObjects, ObjectLaws,
}

module _ (p : Platform) {A : Type 0} (r : Resource p.Cluster A) (namespace_of name_of : A → String)
    (laws : ObjectLaws p r namespace_of name_of) where
  -- The outcome changes nothing but the cluster, in which the objects are those of the view.
  abbrev pub Shows : View A → Kubesim p → Outcome (Kubesim p) Unit → Type 0
  Shows v ks o =
      (c : p.Cluster) × (o ≡ done tt (record ks { cluster = c }))
      × ((ns n : String) → r.get ns n c ≡ v ns n)

  abbrev pub now : Kubesim p → View A
  now ks ns n = r.get ns n ks.cluster

  on_add-Shows :
      (x : Value A) (ks : Kubesim p)
      → Shows (add_view namespace_of name_of x (now ks)) ks (on_add p r namespace_of name_of x ks)
  unfolding on_add
  on_add-Shows (object a) ks = elim (Option-cases (r.get (namespace_of a) (name_of a) ks.cluster)) [
    | inl missing ↦
        let (c, e, law) = laws.created a ks.cluster missing in
        (
          c,
          rw (missing, on_add, e, change) refl,
          λ ns n. ground (arith, law ns n, eq_iff (namespace_of a) ns, eq_iff (name_of a) n),
        )
    | inr (b, there) ↦ (
      ks.cluster,
      rw (there, on_add) refl,
      λ ns n. ground (arith, there, eq_iff (namespace_of a) ns, eq_iff (name_of a) n),
    )
  ]
  on_add-Shows (final_state_unknown a) ks = (ks.cluster, refl, λ ns n. refl)
  on_add-Shows other ks = (ks.cluster, refl, λ ns n. refl)

  on_delete-Shows :
      (x : Value A) (ks : Kubesim p)
      → Shows
          (delete_view namespace_of name_of x (now ks))
          ks
          (on_delete p r namespace_of name_of x ks)
  unfolding on_delete
  on_delete-Shows (object a) ks =
      elim (Option-cases (r.get (namespace_of a) (name_of a) ks.cluster)) [
        | inl missing ↦ (
          ks.cluster,
          rw (laws.not_deleted a ks.cluster missing, change) refl,
          λ ns n. ground (arith, missing, eq_iff (namespace_of a) ns, eq_iff (name_of a) n),
        )
        | inr (b, there) ↦
            let (c, e, law) = laws.deleted a b ks.cluster there in (c, rw (e, change) refl, law)
      ]
  on_delete-Shows (final_state_unknown a) ks = (ks.cluster, refl, λ ns n. refl)
  on_delete-Shows other ks = (ks.cluster, refl, λ ns n. refl)

  on_node_update-Shows :
      (x : Value A) (ks : Kubesim p)
      → Shows
          (update_view namespace_of name_of x (now ks))
          ks
          (on_node_update p r namespace_of name_of x ks)
  unfolding on_node_update
  on_node_update-Shows (object a) ks =
      elim (Option-cases (r.get (namespace_of a) (name_of a) ks.cluster)) [
        | inl missing ↦ (
          ks.cluster,
          rw (laws.not_updated a ks.cluster missing, change) refl,
          λ ns n. ground (arith, missing, eq_iff (namespace_of a) ns, eq_iff (name_of a) n),
        )
        | inr (b, there) ↦
            let (c, e, law) = laws.updated a b ks.cluster there in
            (
              c,
              rw (e, change) refl,
              λ ns n.
                  ground (arith, there, law ns n, eq_iff (namespace_of a) ns, eq_iff (name_of a) n),
            )
      ]
  on_node_update-Shows (final_state_unknown a) ks = (ks.cluster, refl, λ ns n. refl)
  on_node_update-Shows other ks = (ks.cluster, refl, λ ns n. refl)

  -- The handlers of each watch, on one call.
  on_pod_update-Shows :
      (x y : A) (same : Bool) (ks : Kubesim p)
      → Shows
          (follow_pods namespace_of name_of (updates (object x) (object y) same) (now ks))
          ks
          (on_pod_update p r namespace_of name_of (object x) (object y) same ks)
  unfolding on_pod_update
  on_pod_update-Shows x y true ks = (ks.cluster, refl, λ ns n. refl)
  on_pod_update-Shows x y false ks = unfold on_node_update in on_node_update-Shows (object y) ks

  abbrev Follows : (Call A → Exec (Kubesim p) Unit) → (Call A → View A → View A) → Call A → Type 0
  Follows handle one c = (ks : Kubesim p) → Shows (one c (now ks)) ks (handle c ks)

  run_calls-Shows :
      (handle : Call A → Exec (Kubesim p) Unit) (one : Call A → View A → View A)
      (calls : List (Call A))
      → All (Follows handle one) calls
      → (ks : Kubesim p) → Shows (follow one calls (now ks)) ks (run_calls handle calls ks)
  unfolding run_calls
  run_calls-Shows handle one [] h ks = (ks.cluster, refl, λ ns n. refl)
  run_calls-Shows handle one (x ∷ xs) (h, hs) ks =
      let (c, e, law) = h ks in
      let (d, run, view) = run_calls-Shows handle one xs hs (record ks { cluster = c }) in
      (
        d,
        rw e run,
        λ ns n. view ns n ∙ ap (λ v. follow one xs v ns n) (fun_ext (λ k. fun_ext (law k))),
      )

  one_object :
      (c : Call A)
      → Follows (watch_objects p r namespace_of name_of) (follow_objects namespace_of name_of) c
  unfolding watch_objects
  one_object (adds x) = on_add-Shows x
  one_object (deletes x) = on_delete-Shows x
  one_object (updates old new same) = λ ks. (ks.cluster, refl, λ ns n. refl)

  one_node :
      (c : Call A)
      → Follows (watch_nodes p r namespace_of name_of) (follow_nodes namespace_of name_of) c
  unfolding watch_nodes
  one_node (adds x) = on_add-Shows x
  one_node (deletes x) = on_delete-Shows x
  one_node (updates old new same) = on_node_update-Shows new

  one_pod :
      (c : Call A)
      → BringsObjects c
      → Follows (watch_pods p r namespace_of name_of) (follow_pods namespace_of name_of) c
  unfolding watch_pods
  one_pod (adds x) h = on_add-Shows x
  one_pod (deletes x) h = on_delete-Shows x
  one_pod (updates (object x) (object y) same) h = on_pod_update-Shows x y same
  one_pod (updates (object x) (final_state_unknown a) same) h = elim h [ ]
  one_pod (updates (object x) other same) h = elim h [ ]
  one_pod (updates (final_state_unknown a) y same) h = elim h [ ]
  one_pod (updates other y same) h = elim h [ ]

  -- After any calls of the handlers of a watch that has no update handler, in any order, the handlers
  -- have returned without an error, only the cluster has changed, and its objects of the kind are
  -- those that were there, with each added object where none of its name was and without each
  -- deleted object. After the same calls of the handlers of the node watch the same holds, and each
  -- updated object stands in the place of the old one if there was one. Values that are no object of
  -- the kind change nothing.
  pub watch_others-Shows :
      (calls : List (Call A)) (ks : Kubesim p)
      → Shows
          (follow (follow_objects namespace_of name_of) calls (now ks))
          ks
          (run_calls (watch_objects p r namespace_of name_of) calls ks)
        × Shows
            (follow (follow_nodes namespace_of name_of) calls (now ks))
            ks
            (run_calls (watch_nodes p r namespace_of name_of) calls ks)
  watch_others-Shows calls ks = (
    run_calls-Shows (watch_objects p r namespace_of name_of) (follow_objects namespace_of name_of)
        calls (All-of calls one_object) ks,
    run_calls-Shows (watch_nodes p r namespace_of name_of) (follow_nodes namespace_of name_of) calls
        (All-of calls one_node) ks,
  )

  -- After any calls of the handlers of the pod watch whose updates bring two pods the same holds,
  -- where an update with one and the same pod changes nothing.
  pub watch_pods-Shows :
      (calls : List (Call A)) (ks : Kubesim p)
      → All BringsObjects calls
      → Shows
          (follow (follow_pods namespace_of name_of) calls (now ks))
          ks
          (run_calls (watch_pods p r namespace_of name_of) calls ks)
  watch_pods-Shows calls ks h =
      run_calls-Shows (watch_pods p r namespace_of name_of) (follow_pods namespace_of name_of) calls
        (All-mono one_pod calls h) ks

  -- An update whose new or old value is no pod ends the program.
  watch_pods-panics :
      (old new : Value A) (same : Bool) (ks : Kubesim p)
      → (BringsObjects (updates old new same) → ⊥)
      → watch_pods p r namespace_of name_of (updates old new same) ks ≡ panics
  unfolding watch_pods
  watch_pods-panics (object x) (object y) same ks h = absurd (h tt)
  watch_pods-panics (object x) (final_state_unknown a) same ks h = refl
  watch_pods-panics (object x) other same ks h = refl
  watch_pods-panics (final_state_unknown a) y same ks h = refl
  watch_pods-panics other y same ks h = refl
