-- ===== src/Mirror/Sync/Views.antt =====
-- What can be got from a cluster, and what the fake clientset promises of creations.
use kubesim.Prelude.{
  ◌≡◌, ℕ, Bool, not, none, some, List, [], ◌∷◌, String, str_eq, ◌==◌, if◌then◌else◌,
}
use kubesim.Platform.{Platform, Pod, Node}
use kubesim.Mirror.{Kind, Objects}
use kubesim.Mirror.Watch.Views.{View, is_key}

abbrev number : Kind → ℕ
number Kind.services = 0
number Kind.persistent_volume_claims = 1
number Kind.persistent_volumes = 2
number Kind.replication_controllers = 3
number Kind.pod_disruption_budgets = 4
number Kind.replica_sets = 5
number Kind.stateful_sets = 6
number Kind.storage_classes = 7
number Kind.csi_nodes = 8
number Kind.csi_drivers = 9
number Kind.volume_attachments = 10

abbrev pub same_kind : Kind → Kind → Bool
same_kind k j = number k == number j

module _ {A : Type 0} (namespace_of name_of : A → String) where
  abbrev pub put : A → View A → View A
  put a v ns n = if is_key namespace_of name_of a ns n then some a else v ns n

  -- The objects of a list under their keys.
  abbrev pub put_all : List A → View A → View A
  put_all [] v = v
  put_all (a ∷ as') v = put_all as' (put a v)

  -- No two objects of the list have one key, and none has a key of the view.
  abbrev pub Fresh : List A → View A → Type 0
  Fresh [] v = Unit
  Fresh (a ∷ as') v = (v (namespace_of a) (name_of a) ≡ none) × Fresh as' (put a v)

abbrev pub empty_view : {A : Type 0} → View A
empty_view ns n = none

-- The pods that are copied.
abbrev pub not_pending : {Q : Type 0} → List (Pod Q) → List (Pod Q)
not_pending [] = []
not_pending (pod ∷ pods) =
    let rest = not_pending pods in if not (str_eq pod.phase "Pending") then pod ∷ rest else rest

abbrev pub no_namespace : {Q : Type 0} → Node Q → String
no_namespace node = ""

-- What can be got from a cluster.
pub record Views (p : Platform) (o : Objects p) : Type 0 where
  pub pods : View (Pod p.Quantity)
  pub nodes : View (Node p.Quantity)
  pub objects : Kind → View o.Object

module _ (p : Platform) (o : Objects p) where
  abbrev pub views : p.Cluster → Views p o
  views c = record {
    pods = λ ns n. p.pods.get ns n c;
    nodes = λ ns n. p.nodes.get ns n c;
    objects = λ k ns n. (o.resource k).get ns n c;
  }

  abbrev pub put_pod : Pod p.Quantity → Views p o → Views p o
  put_pod a v = record v { pods = put (λ pod. pod.namespace) (λ pod. pod.name) a v.pods }

  abbrev pub put_node : Node p.Quantity → Views p o → Views p o
  put_node a v = record v { nodes = put no_namespace (λ node. node.name) a v.nodes }

  abbrev pub at_kind : Kind → (View o.Object → View o.Object) → Views p o → Views p o
  at_kind k f v = record v { objects = λ j. if same_kind k j then f (v.objects j) else v.objects j }

  -- What the fake clientset promises of a creation: where nothing has the key it succeeds, and only
  -- the object is there afterwards that was not there before.
  pub record CreationLaws : Type 0 where
    pub pod_created :
        (a : Pod p.Quantity) (c : p.Cluster)
        → p.pods.get a.namespace a.name c ≡ none
        → (c' : p.Cluster) × (p.pods.create a.namespace a c ≡ some c')
          × (views c' ≡ put_pod a (views c))
    pub node_created :
        (a : Node p.Quantity) (c : p.Cluster)
        → p.nodes.get "" a.name c ≡ none
        → (c' : p.Cluster) × (p.nodes.create "" a c ≡ some c') × (views c' ≡ put_node a (views c))
    pub object_created :
        (k : Kind) (a : o.Object) (c : p.Cluster)
        → (o.resource k).get (o.namespace_of a) (o.name_of a) c ≡ none
        → (c' : p.Cluster) × ((o.resource k).create (o.namespace_of a) a c ≡ some c')
          × (views c' ≡ at_kind k (put o.namespace_of o.name_of a) (views c))
