-- ===== src/Mirror/Sync/Loops.antt =====
-- The loops of `SyncWithClient`, one at a time.
use mathlib.Core.Path.{fun_ext}
use kubesim.Prelude.{
  ◌≡◌, refl, ap, sym, subst, ◌∙◌, Bool, true, false, Option, none, some, List, [], ◌∷◌, String,
  arith, str_eq, if◌then◌else◌, Bool-cases, inl, inr,
}
use kubesim.Prelude.Exec.{done, Exec, ◌>>◌, pure, wrap, then_do}
use kubesim.Platform.{Platform, Pod, Node}
use kubesim.Simulator.{Kubesim}
use kubesim.Simulator.Pods.{change}
use kubesim.Mirror.{Kind, Objects}
use kubesim.Mirror.Sync.{list_or_fail, copy_text, copy_pods, copy_nodes, copy_objects}
use kubesim.Mirror.Watch.Views.{View}
use kubesim.Mirror.Sync.Views.{
  same_kind, put, put_all, Fresh, not_pending, no_namespace, Views, views, put_pod, put_node,
  at_kind,
}

module _ (p : Platform) (o : Objects p) where
  pub listed-some :
      {A : Type 0} (text : String) (x : Option A) (a : A) (ks : Kubesim p)
      → x ≡ some a
      → list_or_fail p o text x ks ≡ done a ks
  listed-some text x a ks e = ap (λ y. list_or_fail p o text y ks) e

  abbrev pub Makes : Views p o → Kubesim p → Exec (Kubesim p) Unit → Type 0
  Makes v ks run =
      (c : p.Cluster) × (run ks ≡ done tt (record ks { cluster = c })) × (views p o c ≡ v)

  -- The loop that the copies share.
  abbrev pub create_all :
      {A : Type 0} → String → (A → p.Cluster → Option p.Cluster) → List A → Exec (Kubesim p) Unit
  create_all m call [] = pure tt
  create_all m call (a ∷ as') = do wrap m (change p (call a)); create_all m call as'

  abbrev pub upd_all : {A : Type 0} → (A → Views p o → Views p o) → List A → Views p o → Views p o
  upd_all upd [] v = v
  upd_all upd (a ∷ as') v = upd_all upd as' (upd a v)

  -- Each object finds its key free when its turn comes.
  abbrev pub Room :
      {A : Type 0}
      → (A → Views p o → Views p o)
      → (A → Views p o → Type 0)
      → List A
      → Views p o
      → Type 0
  Room upd free [] v = Unit
  Room upd free (a ∷ as') v = free a v × Room upd free as' (upd a v)

  module _ {A : Type 0} (m : String) (call : A → p.Cluster → Option p.Cluster)
      (upd : A → Views p o → Views p o) (free : A → Views p o → Type 0)
      (step : (a : A) (c : p.Cluster)
        → free a (views p o c)
        → (c' : p.Cluster) × (call a c ≡ some c') × (views p o c' ≡ upd a (views p o c))) where
    pub create_all-Makes :
        (items : List A) (ks : Kubesim p)
        → Room upd free items (views p o ks.cluster)
        → Makes (upd_all upd items (views p o ks.cluster)) ks (create_all m call items)
    unfolding change
    create_all-Makes [] ks h = (ks.cluster, refl, refl)
    create_all-Makes (a ∷ as') ks (h, hs) =
        let (c, made, now) = step a ks.cluster h in
        let (d, run, after) =
          create_all-Makes as' (record ks { cluster = c })
            (subst (Room upd free as') (sym now) hs) in
        (d, rw (made, change) run, after ∙ ap (upd_all upd as') now)

  pub copy_pods-create :
      (items : List (Pod p.Quantity)) (ks : Kubesim p)
      → copy_pods p o items ks
        ≡ create_all "unable to copy pod"
            (λ pod. p.pods.create pod.namespace pod)
            (not_pending items)
            ks
  unfolding copy_pods
  copy_pods-create [] ks = refl
  copy_pods-create (a ∷ as') ks = elim (Bool-cases (str_eq a.phase "Pending")) [
    | inl pending ↦ rw pending (copy_pods-create as' ks)
    | inr running ↦ rw running (ap (then_do _) (fun_ext (λ u. fun_ext (copy_pods-create as'))))
  ]

  pub copy_nodes-create :
      (items : List (Node p.Quantity)) (ks : Kubesim p)
      → copy_nodes p o items ks ≡ create_all "unable to copy node" (p.nodes.create "") items ks
  unfolding copy_nodes
  copy_nodes-create [] ks = refl
  copy_nodes-create (a ∷ as') ks = ap (then_do _) (fun_ext (λ u. fun_ext (copy_nodes-create as')))

  pub copy_objects-create :
      (k : Kind) (items : List o.Object) (ks : Kubesim p)
      → copy_objects p o k items ks
        ≡ create_all (copy_text k) (λ a. (o.resource k).create (o.namespace_of a) a) items ks
  unfolding copy_objects
  copy_objects-create k [] ks = refl
  copy_objects-create k (a ∷ as') ks =
      ap (then_do _) (fun_ext (λ u. fun_ext (copy_objects-create k as')))

module _ (p : Platform) (o : Objects p) where
  abbrev pub put_pods : List (Pod p.Quantity) → View (Pod p.Quantity) → View (Pod p.Quantity)
  put_pods = put_all (λ pod. pod.namespace) (λ pod. pod.name)

  abbrev pub put_nodes : List (Node p.Quantity) → View (Node p.Quantity) → View (Node p.Quantity)
  put_nodes = put_all no_namespace (λ node. node.name)

  abbrev pub put_objects : List o.Object → View o.Object → View o.Object
  put_objects = put_all o.namespace_of o.name_of

  abbrev pub PodFree : Pod p.Quantity → Views p o → Type 0
  PodFree a v = v.pods a.namespace a.name ≡ none

  abbrev pub NodeFree : Node p.Quantity → Views p o → Type 0
  NodeFree a v = v.nodes "" a.name ≡ none

  abbrev pub ObjectFree : Kind → o.Object → Views p o → Type 0
  ObjectFree k a v = v.objects k (o.namespace_of a) (o.name_of a) ≡ none

  pub pods_after :
      (items : List (Pod p.Quantity)) (v : Views p o)
      → upd_all p o (put_pod p o) items v ≡ record v { pods = put_pods items v.pods }
  pods_after [] v = refl
  pods_after (a ∷ as') v = pods_after as' (put_pod p o a v)

  pub nodes_after :
      (items : List (Node p.Quantity)) (v : Views p o)
      → upd_all p o (put_node p o) items v ≡ record v { nodes = put_nodes items v.nodes }
  nodes_after [] v = refl
  nodes_after (a ∷ as') v = nodes_after as' (put_node p o a v)

  pub pods-Room :
      (items : List (Pod p.Quantity)) (v : Views p o)
      → Fresh (λ pod. pod.namespace) (λ pod. pod.name) items v.pods
      → Room p o (put_pod p o) PodFree items v
  pods-Room [] v h = tt
  pods-Room (a ∷ as') v (h, hs) = (h, pods-Room as' (put_pod p o a v) hs)

  pub nodes-Room :
      (items : List (Node p.Quantity)) (v : Views p o)
      → Fresh no_namespace (λ node. node.name) items v.nodes
      → Room p o (put_node p o) NodeFree items v
  nodes-Room [] v h = tt
  nodes-Room (a ∷ as') v (h, hs) = (h, nodes-Room as' (put_node p o a v) hs)

  same_kind_self : (k : Kind) → same_kind k k ≡ true
  same_kind_self k = ground arith

  abbrev pub put_object : Kind → o.Object → Views p o → Views p o
  put_object k a = at_kind p o k (put o.namespace_of o.name_of a)

  at_kind-id : (k : Kind) (v : Views p o) → at_kind p o k (λ w. w) v ≡ v
  at_kind-id k v =
      ap (λ f. record v { objects = f })
        (fun_ext (λ j.
          elim (same_kind k j) as (λ b. (if b then v.objects j else v.objects j) ≡ v.objects j) [
            | true ↦ refl
            | false ↦ refl
          ]))

  branches :
      (f g : View o.Object → View o.Object) (b : Bool) (w : View o.Object)
      → (if b then f (if b then g w else w) else (if b then g w else w))
        ≡ (if b then f (g w) else w)
  branches f g true w = refl
  branches f g false w = refl

  at_kind-at_kind :
      (k : Kind) (f g : View o.Object → View o.Object) (v : Views p o)
      → at_kind p o k f (at_kind p o k g v) ≡ at_kind p o k (λ w. f (g w)) v
  at_kind-at_kind k f g v =
      ap (λ h. record v { objects = h }) (fun_ext (λ j. branches f g (same_kind k j) (v.objects j)))

  pub objects_after :
      (k : Kind) (items : List o.Object) (v : Views p o)
      → upd_all p o (put_object k) items v ≡ at_kind p o k (put_objects items) v
  objects_after k [] v = sym (at_kind-id k v)
  objects_after k (a ∷ as') v =
      objects_after k as' (put_object k a v)
      ∙ at_kind-at_kind k (put_objects as') (put o.namespace_of o.name_of a) v

  pub objects-Room :
      (k : Kind) (items : List o.Object) (v : Views p o)
      → Fresh o.namespace_of o.name_of items (v.objects k)
      → Room p o (put_object k) (ObjectFree k) items v
  objects-Room k [] v h = tt
  objects-Room k (a ∷ as') v (h, hs) =
      (h, objects-Room k as' (put_object k a v) (rw (same_kind_self k) hs))
