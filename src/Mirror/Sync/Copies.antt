-- ===== src/Mirror/Sync/Copies.antt =====
-- What `SyncWithClient` leaves in the fake cluster.
use kubesim.Prelude.{◌≡◌, refl, ap, sym, subst, ◌∙◌, some, List, [], ◌∷◌}
use kubesim.Prelude.Exec.{then_do-done}
use kubesim.Platform.{Platform, Pod, Node}
use kubesim.Simulator.{Kubesim}
use kubesim.Mirror.{Kind, Objects, all_kinds}
use kubesim.Mirror.Sync.{
  copy_text, copy_pods, copy_nodes, copy_objects, sync_kinds, sync_with_client,
}
use kubesim.Mirror.Sync.Views.{
  Fresh, empty_view, not_pending, no_namespace, Views, views, put_pod, put_node, at_kind,
  CreationLaws,
}
use kubesim.Mirror.Sync.Loops.{
  listed-some, Makes, create_all-Makes, copy_pods-create, copy_nodes-create, copy_objects-create,
  pods_after, nodes_after, objects_after, pods-Room, nodes-Room, objects-Room, put_pods, put_nodes,
  put_objects, PodFree, NodeFree, ObjectFree, put_object,
}

module _ (p : Platform) (o : Objects p) (laws : CreationLaws p o) where
  -- What the clientset of the real cluster lists.
  module _ (pods : List (Pod p.Quantity)) (nodes : List (Node p.Quantity))
      (items : Kind → List o.Object) (pods_listed : o.real_pods ≡ some pods)
      (nodes_listed : o.real_nodes ≡ some nodes)
      (items_listed : (k : Kind) → o.real_objects k ≡ some (items k)) where
    abbrev kinds_after : List Kind → Views p o → Views p o
    kinds_after [] v = v
    kinds_after (k ∷ kinds) v = kinds_after kinds (at_kind p o k (put_objects p o (items k)) v)

    abbrev KindsRoom : List Kind → Views p o → Type 0
    KindsRoom [] v = Unit
    KindsRoom (k ∷ kinds) v =
        Fresh o.namespace_of o.name_of (items k) (v.objects k)
        × KindsRoom kinds (at_kind p o k (put_objects p o (items k)) v)

    copy_objects-Makes :
        (k : Kind) (ks : Kubesim p)
        → Fresh o.namespace_of o.name_of (items k) ((views p o ks.cluster).objects k)
        → Makes p o
            (at_kind p o k (put_objects p o (items k)) (views p o ks.cluster))
            ks
            (copy_objects p o k (items k))
    copy_objects-Makes k ks h =
        let (c, run, now) =
          create_all-Makes p o (copy_text k) (λ a. (o.resource k).create (o.namespace_of a) a)
            (put_object p o k) (ObjectFree p o k) (laws.object_created k) (items k) ks
            (objects-Room p o k (items k) (views p o ks.cluster) h) in
        (
          c,
          copy_objects-create p o k (items k) ks ∙ run,
          now ∙ objects_after p o k (items k) (views p o ks.cluster),
        )

    sync_kinds-Makes :
        (kinds : List Kind) (ks : Kubesim p)
        → KindsRoom kinds (views p o ks.cluster)
        → Makes p o (kinds_after kinds (views p o ks.cluster)) ks (sync_kinds p o kinds)
    unfolding sync_kinds
    sync_kinds-Makes [] ks h = (ks.cluster, refl, refl)
    sync_kinds-Makes (k ∷ kinds) ks (h, hs) =
        let (c, copied, now) = copy_objects-Makes k ks h in
        let (d, run, after) =
          sync_kinds-Makes kinds (record ks { cluster = c })
            (subst (KindsRoom kinds) (sym now) hs) in
        (d, rw (items_listed k, copied) run, after ∙ ap (kinds_after kinds) now)

    abbrev with_pods : Views p o → Views p o
    with_pods v = record v { pods = put_pods p o (not_pending pods) v.pods }

    abbrev with_nodes : Views p o → Views p o
    with_nodes v = record v { nodes = put_nodes p o nodes v.nodes }

    copy_pods-Makes :
        (ks : Kubesim p)
        → Fresh
            (λ pod. pod.namespace)
            (λ pod. pod.name)
            (not_pending pods)
            (views p o ks.cluster).pods
        → Makes p o (with_pods (views p o ks.cluster)) ks (copy_pods p o pods)
    copy_pods-Makes ks h =
        let (c, run, now) =
          create_all-Makes p o "unable to copy pod" (λ pod. p.pods.create pod.namespace pod)
            (put_pod p o) (PodFree p o) laws.pod_created (not_pending pods) ks
            (pods-Room p o (not_pending pods) (views p o ks.cluster) h) in
        (
          c,
          copy_pods-create p o pods ks ∙ run,
          now ∙ pods_after p o (not_pending pods) (views p o ks.cluster),
        )

    copy_nodes-Makes :
        (ks : Kubesim p)
        → Fresh no_namespace (λ node. node.name) nodes (views p o ks.cluster).nodes
        → Makes p o (with_nodes (views p o ks.cluster)) ks (copy_nodes p o nodes)
    copy_nodes-Makes ks h =
        let (c, run, now) =
          create_all-Makes p o "unable to copy node" (p.nodes.create "") (put_node p o)
            (NodeFree p o) laws.node_created nodes ks
            (nodes-Room p o nodes (views p o ks.cluster) h) in
        (
          c,
          copy_nodes-create p o nodes ks ∙ run,
          now ∙ nodes_after p o nodes (views p o ks.cluster),
        )

    abbrev pub nothing : Views p o
    nothing = record { pods = empty_view; nodes = empty_view; objects = λ k. empty_view }

    abbrev pub copied : Views p o
    copied = record {
      pods = put_pods p o (not_pending pods) empty_view;
      nodes = put_nodes p o nodes empty_view;
      objects = λ k. (put_objects p o) (items k) empty_view;
    }

    kind_after :
        (k : Kind)
        → (kinds_after all_kinds (with_nodes (with_pods nothing))).objects k ≡ copied.objects k
    kind_after Kind.services = refl
    kind_after Kind.persistent_volume_claims = refl
    kind_after Kind.persistent_volumes = refl
    kind_after Kind.replication_controllers = refl
    kind_after Kind.pod_disruption_budgets = refl
    kind_after Kind.replica_sets = refl
    kind_after Kind.stateful_sets = refl
    kind_after Kind.storage_classes = refl
    kind_after Kind.csi_nodes = refl
    kind_after Kind.csi_drivers = refl
    kind_after Kind.volume_attachments = refl

    all_after : kinds_after all_kinds (with_nodes (with_pods nothing)) ≡ copied
    all_after i = record copied { objects = λ k. kind_after k i }

    all_room :
        ((k : Kind) → Fresh o.namespace_of o.name_of (items k) empty_view)
        → KindsRoom all_kinds (with_nodes (with_pods nothing))
    all_room h = (
      h Kind.services,
      (
        h Kind.persistent_volume_claims,
        (
          h Kind.persistent_volumes,
          (
            h Kind.replication_controllers,
            (
              h Kind.pod_disruption_budgets,
              (
                h Kind.replica_sets,
                (
                  h Kind.stateful_sets,
                  (
                    h Kind.storage_classes,
                    (h Kind.csi_nodes, (h Kind.csi_drivers, (h Kind.volume_attachments, tt))),
                  ),
                ),
              ),
            ),
          ),
        ),
      ),
    )

    -- A copy of a real cluster in which no two objects of a kind have one key, into a fake cluster with
    -- no objects, where every list succeeds: `SyncWithClient` returns without an error, it changes
    -- nothing but the cluster, and in that can be got, under their keys, exactly the listed pods that
    -- are not pending, the listed nodes, and the listed objects of each of the other kinds.
    pub sync_with_client-Makes :
        (ks : Kubesim p)
        → views p o ks.cluster ≡ nothing
        → Fresh (λ pod. pod.namespace) (λ pod. pod.name) (not_pending pods) empty_view
        → Fresh no_namespace (λ node. node.name) nodes empty_view
        → ((k : Kind) → Fresh o.namespace_of o.name_of (items k) empty_view)
        → Makes p o copied ks (sync_with_client p o)
    unfolding sync_with_client
    sync_with_client-Makes ks empty fp fn fk =
        let pods_view = λ (v : Views p o).
          Fresh (λ pod. pod.namespace) (λ pod. pod.name) (not_pending pods) v.pods in
        let (c, run, now) = copy_pods-Makes ks (subst pods_view (sym empty) fp) in
        let now' = now ∙ ap with_pods empty in
        let nodes_view = λ (v : Views p o). Fresh no_namespace (λ node. node.name) nodes v.nodes in
        let (d, run_d, now_d) =
          copy_nodes-Makes (record ks { cluster = c }) (subst nodes_view (sym now') fn) in
        let now_d' = now_d ∙ ap with_nodes now' in
        let (e, run_e, now_e) =
          sync_kinds-Makes all_kinds (record ks { cluster = d })
            (subst (KindsRoom all_kinds) (sym now_d') (all_room fk)) in
        (
          e,
          then_do-done _ (listed-some p o _ _ pods ks pods_listed)
              ∙ then_do-done _ run
              ∙ then_do-done _ (listed-some p o _ _ nodes _ nodes_listed)
              ∙ then_do-done _ run_d
              ∙ run_e,
          now_e ∙ ap (kinds_after all_kinds) now_d' ∙ all_after,
        )
