-- ===== src/Mirror/Watch/Views.antt =====
-- The objects of a cluster as a partial function from keys, what the calls of the handlers should make
-- of it, and what the fake clientset promises.
use kubesim.Prelude.{
  ◌≡◌, Bool, ◌&&◌, Option, none, some, List, [], ◌∷◌, String, str_eq, if◌then◌else◌,
}
use kubesim.Platform.{Platform, Resource}
use kubesim.Mirror.Watch.{Value, object, final_state_unknown, other, Call, adds, deletes, updates}

-- The objects under their namespaces and names.
abbrev pub View : Type 0 → Type 0
View A = String → String → Option A

module _ {A : Type 0} (namespace_of name_of : A → String) where
  abbrev pub is_key : A → String → String → Bool
  is_key a ns n = str_eq (namespace_of a) ns && str_eq (name_of a) n

  abbrev pub or_new : Option A → A → Option A
  or_new none a = some a
  or_new (some b) a = some b

  abbrev pub changed : Option A → A → Option A
  changed none a = none
  changed (some b) a = some a

  -- An object that is added where there is none, taken away, or put in place of the old one.
  abbrev pub add_view : Value A → View A → View A
  add_view (object a) v ns n = if is_key a ns n then or_new (v ns n) a else v ns n
  add_view (final_state_unknown a) v ns n = v ns n
  add_view other v ns n = v ns n

  abbrev pub delete_view : Value A → View A → View A
  delete_view (object a) v ns n = if is_key a ns n then none else v ns n
  delete_view (final_state_unknown a) v ns n = v ns n
  delete_view other v ns n = v ns n

  abbrev pub update_view : Value A → View A → View A
  update_view (object a) v ns n = if is_key a ns n then changed (v ns n) a else v ns n
  update_view (final_state_unknown a) v ns n = v ns n
  update_view other v ns n = v ns n

  -- What a call of the handlers should do to the fake cluster: for kinds that are not updated, for
  -- nodes, and for pods.
  abbrev pub follow_objects : Call A → View A → View A
  follow_objects (adds x) v = add_view x v
  follow_objects (deletes x) v = delete_view x v
  follow_objects (updates old new same) v = v

  abbrev pub follow_nodes : Call A → View A → View A
  follow_nodes (adds x) v = add_view x v
  follow_nodes (deletes x) v = delete_view x v
  follow_nodes (updates old new same) v = update_view new v

  abbrev pub follow_pods : Call A → View A → View A
  follow_pods (adds x) v = add_view x v
  follow_pods (deletes x) v = delete_view x v
  follow_pods (updates old new same) v = if same then v else update_view new v

abbrev pub follow : {A : Type 0} → (Call A → View A → View A) → List (Call A) → View A → View A
follow one [] v = v
follow one (c ∷ cs) v = follow one cs (one c v)

-- Whether an update brings two objects of the kind.
abbrev pub BringsObjects : {A : Type 0} → Call A → Type 0
BringsObjects (adds x) = Unit
BringsObjects (deletes x) = Unit
BringsObjects (updates (object x) (object y) same) = Unit
BringsObjects (updates (object x) (final_state_unknown a) same) = ⊥
BringsObjects (updates (object x) other same) = ⊥
BringsObjects (updates (final_state_unknown a) y same) = ⊥
BringsObjects (updates other y same) = ⊥

-- What the fake clientset promises of the objects of a kind: an object is created where there is
-- none, and deleted or updated where there is one; nothing happens to the others.
pub record ObjectLaws (p : Platform) {A : Type 0} (r : Resource p.Cluster A)
    (namespace_of name_of : A → String) : Type 0 where
  pub created :
      (a : A) (c : p.Cluster)
      → r.get (namespace_of a) (name_of a) c ≡ none
      → (c' : p.Cluster) × (r.create (namespace_of a) a c ≡ some c')
        × ((ns n : String)
            → r.get ns n c' ≡ (if is_key namespace_of name_of a ns n then some a else r.get ns n c))
  pub deleted :
      (a b : A) (c : p.Cluster)
      → r.get (namespace_of a) (name_of a) c ≡ some b
      → (c' : p.Cluster) × (r.delete (namespace_of a) (name_of a) c ≡ some c')
        × ((ns n : String)
            → r.get ns n c' ≡ (if is_key namespace_of name_of a ns n then none else r.get ns n c))
  pub not_deleted :
      (a : A) (c : p.Cluster)
      → r.get (namespace_of a) (name_of a) c ≡ none
      → r.delete (namespace_of a) (name_of a) c ≡ none
  pub updated :
      (a b : A) (c : p.Cluster)
      → r.get (namespace_of a) (name_of a) c ≡ some b
      → (c' : p.Cluster) × (r.update (namespace_of a) a c ≡ some c')
        × ((ns n : String)
            → r.get ns n c' ≡ (if is_key namespace_of name_of a ns n then some a else r.get ns n c))
  pub not_updated :
      (a : A) (c : p.Cluster)
      → r.get (namespace_of a) (name_of a) c ≡ none
      → r.update (namespace_of a) a c ≡ none
