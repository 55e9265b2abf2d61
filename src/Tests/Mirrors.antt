-- ===== src/Tests/Mirrors.antt =====
-- Clusters that are partial functions from keys to objects, followed and copied.
use kubesim.Prelude.{
  ◌≡◌, refl, Bool, true, false, Option, none, some, List, [], ◌∷◌, String, str_eq, if◌then◌else◌,
  ap, ◌&&◌,
}
use kubesim.Prelude.Int.{ℤ}
use kubesim.Platform.{Platform, Pod, Node, Resource}
use kubesim.Simulator.{Kubesim, new}
use kubesim.Mirror.{Kind, Objects}
use kubesim.Mirror.Watch.{
  object, final_state_unknown, other, Call, adds, deletes, updates, watch_objects, watch_nodes,
  watch_pods, run_calls,
}
use kubesim.Mirror.Watch.Views.{View, follow, follow_objects, follow_nodes, follow_pods, ObjectLaws}
use kubesim.Mirror.Watch.Contents.{Shows, now, watch_others-Shows, watch_pods-Shows}
use kubesim.Mirror.Sync.Views.{same_kind, put, views, empty_view, CreationLaws, Fresh, no_namespace}
use kubesim.Mirror.Sync.{sync_with_client}
use kubesim.Mirror.Sync.Loops.{Makes}
use kubesim.Mirror.Sync.Copies.{sync_with_client-Makes, copied, nothing}
use kubesim.Tests.{web, web_on}
use kubesim.Tests.Nodes.{node_of}

-- A cluster that keeps the objects of each resource under their keys; the other kinds' objects are
-- texts, their names.
pub record Shelves : Type 0 where
  pub pods : View (Pod ℤ)
  pub nodes : View (Node ℤ)
  pub objects : Kind → View String

abbrev if_free : {C A : Type 0} → Option A → C → Option C
if_free none c = some c
if_free (some a) c = none

abbrev if_there : {C A : Type 0} → Option A → C → Option C
if_there none c = none
if_there (some a) c = some c

module _ {A : Type 0} (namespace_of name_of : A → String) (shelf_of : Shelves → View A)
    (edit : (View A → View A) → Shelves → Shelves) where
  abbrev put_on : A → Shelves → Shelves
  put_on a = edit (put namespace_of name_of a)

  abbrev take_off : String → String → Shelves → Shelves
  take_off namespace name =
      edit (λ v ns n. if str_eq namespace ns && str_eq name n then none else v ns n)

  abbrev shelf : Resource Shelves A
  shelf = record {
    list = λ namespace selector c. none;
    get = λ namespace name c. shelf_of c namespace name;
    create = λ namespace a c. if_free (shelf_of c namespace (name_of a)) (put_on a c);
    update = λ namespace a c. if_there (shelf_of c namespace (name_of a)) (put_on a c);
    delete = λ namespace name c. if_there (shelf_of c namespace name) (take_off namespace name c);
  }

abbrev ns_of : Pod ℤ → String
ns_of pod = pod.namespace

abbrev n_of : Pod ℤ → String
n_of pod = pod.name

abbrev node_n_of : Node ℤ → String
node_n_of node = node.name

abbrev pub store : Platform
store = record {
  Quantity = ℤ;
  milli = λ v. v;
  binary = λ v. v;
  decimal = λ v. v;
  add = λ v w. v;
  value = λ v. v;
  is_scalar_resource_name = λ name. false;
  Cluster = Shelves;
  pods = shelf ns_of n_of (λ c. c.pods) (λ f c. record c { pods = f c.pods });
  nodes = shelf no_namespace node_n_of (λ c. c.nodes) (λ f c. record c { nodes = f c.nodes });
  dump = λ c. [];
  percent = λ used all. "";
  uuid = λ i. "0a1b2c3";
}

abbrev nowhere : String → String
nowhere name = ""

abbrev itself : String → String
itself name = name

abbrev of_kind : Kind → Resource Shelves String
of_kind k =
    shelf nowhere itself (λ c. c.objects k)
      (λ f c. record c { objects = λ j. if same_kind k j then f (c.objects j) else c.objects j })

module _ {A : Type 0} (namespace_of name_of : A → String) (shelf_of : Shelves → View A)
    (edit : (View A → View A) → Shelves → Shelves)
    (there : (f : View A → View A) (c : Shelves) → shelf_of (edit f c) ≡ f (shelf_of c)) where
  shelf_laws : ObjectLaws store (shelf namespace_of name_of shelf_of edit) namespace_of name_of
  shelf_laws = record {
    created = λ a c e. (
      put_on namespace_of name_of shelf_of edit a c,
      rw e refl,
      λ ns n. ap (λ v. v ns n) (there _ c),
    );
    deleted = λ a b c e. (
      take_off namespace_of name_of shelf_of edit (namespace_of a) (name_of a) c,
      rw e refl,
      λ ns n. ap (λ v. v ns n) (there _ c),
    );
    not_deleted = λ a c e. rw e refl;
    updated = λ a b c e. (
      put_on namespace_of name_of shelf_of edit a c,
      rw e refl,
      λ ns n. ap (λ v. v ns n) (there _ c),
    );
    not_updated = λ a c e. rw e refl;
  }

abbrev on_node : String → String → Pod ℤ
on_node name node = record (web_on node) { name = name }

-- The real cluster: a bound pod and a pending one, a node, and a service.
abbrev pub real_cluster : Objects store
real_cluster = record {
  Object = String;
  name_of = itself;
  namespace_of = nowhere;
  resource = of_kind;
  real_pods = some (on_node "web" "n1" ∷ record web { name = "late"; phase = "Pending" } ∷ []);
  real_nodes = some (node_of "n1" ∷ []);
  real_objects = λ k. some (if same_kind k Kind.services then "web" ∷ [] else []);
}

pub store_laws : CreationLaws store real_cluster
store_laws = record {
  pod_created = λ a c e. (record c { pods = put ns_of n_of a c.pods }, rw e refl, refl);
  node_created =
      λ a c e. (record c { nodes = put no_namespace node_n_of a c.nodes }, rw e refl, refl);
  object_created = λ k a c e. (
    record c {
      objects = λ j. if same_kind k j then put nowhere itself a (c.objects j) else c.objects j;
    },
    rw e refl,
    refl,
  );
}

abbrev empty_store : Kubesim store
empty_store =
    new store "prd" (record { pods = empty_view; nodes = empty_view; objects = λ k. empty_view }) 0
      []

abbrev pub listed : Kind → List String
listed k = if same_kind k Kind.services then "web" ∷ [] else []

pub services-Fresh : (b : Bool) → Fresh nowhere itself (if b then "web" ∷ [] else []) empty_view
services-Fresh true = (refl, tt)
services-Fresh false = tt

abbrev pub real_pod_list : List (Pod ℤ)
real_pod_list = on_node "web" "n1" ∷ record web { name = "late"; phase = "Pending" } ∷ []

nothing_there :
    views store real_cluster empty_store.cluster
    ≡ nothing store real_cluster store_laws real_pod_list
        (node_of "n1" ∷ [])
        listed
        refl
        refl
        (λ k. refl)
unfolding new
nothing_there = refl

sync_with_client-Makes_example :
    Makes store real_cluster
      (copied store real_cluster store_laws real_pod_list
        (node_of "n1" ∷ [])
        listed
        refl
        refl
        (λ k. refl))
      empty_store
      (sync_with_client store real_cluster)
sync_with_client-Makes_example =
    sync_with_client-Makes store real_cluster store_laws real_pod_list (node_of "n1" ∷ []) listed
      refl refl (λ k. refl) empty_store nothing_there (refl, tt) (refl, tt)
      (λ k. services-Fresh (same_kind k Kind.services))

-- A pod is added and moved, deleted under a final state that is unknown, and deleted.
abbrev pod_calls : List (Call (Pod ℤ))
pod_calls =
    adds (object (on_node "web" "n1"))
    ∷ updates (object (on_node "web" "n1")) (object (on_node "web" "n2")) false
    ∷ deletes (final_state_unknown (some (on_node "web" "n2")))
    ∷ deletes (object (on_node "web" "n2"))
    ∷ []

pods_laws : ObjectLaws store store.pods ns_of n_of
pods_laws = shelf_laws ns_of n_of (λ c. c.pods) (λ f c. record c { pods = f c.pods }) (λ f c. refl)

nodes_laws : ObjectLaws store store.nodes no_namespace node_n_of
nodes_laws =
    shelf_laws no_namespace node_n_of (λ c. c.nodes) (λ f c. record c { nodes = f c.nodes })
      (λ f c. refl)

abbrev node_calls : List (Call (Node ℤ))
node_calls =
    adds (object (node_of "n1"))
    ∷ updates (object (node_of "n1")) (object (node_of "n1")) false
    ∷ adds other
    ∷ deletes (object (node_of "n3"))
    ∷ updates (object (node_of "n2")) (object (node_of "n2")) false
    ∷ []

watch_pods-Shows_example :
    Shows store store.pods ns_of n_of pods_laws
      (follow
        (follow_pods ns_of n_of)
        pod_calls
        (now store store.pods ns_of n_of pods_laws empty_store))
      empty_store
      (run_calls (watch_pods store store.pods ns_of n_of) pod_calls empty_store)
watch_pods-Shows_example =
    watch_pods-Shows store store.pods ns_of n_of pods_laws pod_calls empty_store
      (tt, (tt, (tt, (tt, tt))))

watch_others-Shows_example :
    Shows store store.nodes no_namespace node_n_of nodes_laws
      (follow
        (follow_objects no_namespace node_n_of)
        node_calls
        (now store store.nodes no_namespace node_n_of nodes_laws empty_store))
      empty_store
      (run_calls (watch_objects store store.nodes no_namespace node_n_of) node_calls empty_store)
    × Shows store store.nodes no_namespace node_n_of nodes_laws
        (follow
          (follow_nodes no_namespace node_n_of)
          node_calls
          (now store store.nodes no_namespace node_n_of nodes_laws empty_store))
        empty_store
        (run_calls (watch_nodes store store.nodes no_namespace node_n_of) node_calls empty_store)
watch_others-Shows_example =
    watch_others-Shows store store.nodes no_namespace node_n_of nodes_laws node_calls empty_store
