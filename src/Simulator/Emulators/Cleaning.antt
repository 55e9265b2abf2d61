-- ===== src/Simulator/Emulators/Cleaning.antt =====
-- That `CleanPod` ends with no pod of kubesim left.
use kubesim.Prelude.{ℕ, suc, ◌≡◌, refl, some, List, [], ◌∷◌}
use kubesim.Prelude.Exec.{done}
use kubesim.Platform.{Platform, Pod}
use kubesim.Simulator.{Kubesim}
use kubesim.Simulator.Pods.{change}
use kubesim.Simulator.Emulators.{delete_pods, clean_pod}

-- What the fake clientset promises of the pods of kubesim: a listing does not fail, and a pod that a
-- listing shows first can be deleted, which takes just that pod from the next listing.
pub record PodLaws (p : Platform) : Type 0 where
  pub listed :
      (c : p.Cluster)
      → (ps : List (Pod p.Quantity)) × (p.pods.list "" "provisioner=kubesim" c ≡ some ps)
  pub deleted :
      (c : p.Cluster) (pod : Pod p.Quantity) (rest : List (Pod p.Quantity))
      → p.pods.list "" "provisioner=kubesim" c ≡ some (pod ∷ rest)
      → (c' : p.Cluster) × (p.pods.delete pod.namespace pod.name c ≡ some c')
        × (p.pods.list "" "provisioner=kubesim" c' ≡ some rest)

module _ (p : Platform) (laws : PodLaws p) where
  delete_pods_lem :
      (ps : List (Pod p.Quantity)) (ks : Kubesim p)
      → p.pods.list "" "provisioner=kubesim" ks.cluster ≡ some ps
      → (c : p.Cluster) × (delete_pods p ps ks ≡ done tt (record ks { cluster = c }))
        × (p.pods.list "" "provisioner=kubesim" c ≡ some [])
  unfolding delete_pods
  delete_pods_lem [] ks e = (ks.cluster, refl, e)
  delete_pods_lem (pod ∷ rest) ks e =
      let (c, ok, e') = laws.deleted ks.cluster pod rest e in
      let (c', f, g) = delete_pods_lem rest (record ks { cluster = c }) e' in
      (c', rw (ok, change, delete_pods) f, g)

  clean_listed :
      (ps : List (Pod p.Quantity)) (fuel : ℕ) (ks : Kubesim p)
      → p.pods.list "" "provisioner=kubesim" ks.cluster ≡ some ps
      → (c : p.Cluster) × (clean_pod p (suc (suc fuel)) ks ≡ done tt (record ks { cluster = c }))
        × (p.pods.list "" "provisioner=kubesim" c ≡ some [])
  unfolding clean_pod
  clean_listed [] fuel ks e = (ks.cluster, rw (e, clean_pod) refl, e)
  clean_listed (pod ∷ rest) fuel ks e =
      let (c, f, g) = delete_pods_lem (pod ∷ rest) ks e in (c, rw (e, clean_pod, f, g) refl, g)

  -- `CleanPod` ends without an error after at most two rounds of its loop, leaves a cluster that lists
  -- no pod of kubesim, and changes nothing but the cluster.
  pub clean_pod_lem :
      (fuel : ℕ) (ks : Kubesim p)
      → (c : p.Cluster) × (clean_pod p (suc (suc fuel)) ks ≡ done tt (record ks { cluster = c }))
        × (p.pods.list "" "provisioner=kubesim" c ≡ some [])
  clean_pod_lem fuel ks = let (ps, e) = laws.listed ks.cluster in clean_listed ps fuel ks e
