-- ===== src/Indexes/KeyMap.antt =====
-- What the chunk indexes ask of each of their trees, and that well formed `CowTree`s give it.
use obnam.Prelude.{◌≡◌, refl, Option, none, some, arith}
use obnam.Prelude.Tests.{if◌then◌else◌}
use obnam.Prelude.Keys.{Eq, Ord, ◌==◌}
use obnam.Prelude.Result.{Result, ok}
use obnam.CowTree.LeafList.{Error}
use obnam.CowTree.LeafStore.{LeafStore, Laws}
use obnam.CowTree.Tree.{Tree, Value, item, leaf_infos}
use obnam.CowTree.Tree
use obnam.CowTree.Valid.{IsValid}
use obnam.CowTree.Contract.{insert_lem}

-- a tree whose lookups are those of a dict
pub record KeyMap (T K V : Type 0) ⦃e : Eq K⦄ : Type 0 where
  pub lookup : T → K → Option V
  pub insert : T → K → Option V → T
  pub lookup-insert :
      (t : T) (k j : K) (v : Option V)
      → lookup (insert t k v) j ≡ (if k == j then v else lookup t j)

-- the user's value in a leaf
abbrev user_value : {V K I : Type 0} → Option (Value V K I) → Option V
user_value (some (item v)) = some v
user_value _ = none

abbrev as_item : {V K I : Type 0} → Option V → Option (Value V K I)
as_item none = none
as_item (some v) = some (item v)

abbrev value_of : {A : Type 0} → Result Error (Option A) → Option A
value_of (ok a) = a
value_of _ = none

module _ {K V I St : Type 0} ⦃ek : Eq K⦄ ⦃o : Ord K⦄ ⦃ei : Eq I⦄
    (S : LeafStore K (Value V K I) I St) (L : Laws S) where
  -- a tree that is well formed
  abbrev pub ValidTree : Type 0
  ValidTree = (t : Tree K I St) × IsValid S L t

  pub lookup_user : ValidTree → K → Option V
  lookup_user t key = user_value (value_of (Tree.lookup S t.0 key))

  pub insert_user : ValidTree → K → Option V → ValidTree
  insert_user t key v = let r = insert_lem S L t.0 key (as_item v) t.1 in (r.0, r.2)

  user_value-as_item : (v : Option V) → user_value {V = V} {K = K} {I = I} (as_item v) ≡ v
  user_value-as_item none = refl
  user_value-as_item (some v) = refl

  lookup_user-insert_user :
      (t : ValidTree) (key j : K) (v : Option V)
      → lookup_user (insert_user t key v) j ≡ (if key == j then v else lookup_user t j)
  unfolding lookup_user insert_user
  lookup_user-insert_user t key j v =
      let r = insert_lem S L t.0 key (as_item v) t.1 in ground (arith, r.4 j, user_value-as_item v)

  -- `CowTree`'s own insert and lookup, on well formed trees, are such a map.
  pub cow_tree_map : KeyMap ValidTree K V
  cow_tree_map = record {
    lookup = lookup_user;
    insert = insert_user;
    lookup-insert = lookup_user-insert_user;
  }
