-- ===== src/CowTree/Tree.antt =====
-- obnamlib/fmt_ga/cowtree.py: `CowTree`, over any leaf store.
use obnam.Prelude.{ℕ, ◌/◌, Option, none, some, List, [], ◌∷◌}
use obnam.Prelude.Tests.{if◌then◌else◌, ltb}
use obnam.Prelude.Lists.{length, take, drop}
use obnam.Prelude.Keys.{Eq, Ord}
use obnam.Prelude.Dict.{keys}
use obnam.Prelude.Sorted.{sorted}
use obnam.Prelude.Result.{Result, ok, raise, ◌>>=◌}
use obnam.CowTree.Leaf
use obnam.CowTree.Leaf.{Leaf}
use obnam.CowTree.LeafStore.{LeafStore}
use obnam.CowTree.LeafList.{
  LeafInfo, Error, assertion_error, index_error, attribute_error, type_error, last,
  find_leaf_for_key, insert_leaf, update_leaf, drop_leaf,
}

pub record Tree (K I St : Type 0) : Type 0 where
  pub store : St
  pub leaf_list : List (LeafInfo K I)
  pub max_keys_per_leaf : ℕ

abbrev pub tree_of : {K I St : Type 0} → St → ℕ → List (LeafInfo K I) → Tree K I St
tree_of s limit l = record { store = s; leaf_list = l; max_keys_per_leaf = limit }

-- A leaf's value: one that a user inserts, or the leaf list, which `commit` stores in a leaf too.
pub data Value (V K I : Type 0) : Type 0 where
  item : V → Value V K I
  leaf_infos : List (LeafInfo K I) → Value V K I

-- `sorted_keys[0], sorted_keys[-1]`
abbrev pub ends : {K : Type 0} → List K → Result Error (K × K)
ends [] = raise index_error
ends (k ∷ ks) = elim (last (k ∷ ks)) [ none ↦ raise index_error | some l ↦ ok (k, l) ]

-- `__init__` and `set_leaf_store`
abbrev pub empty : {K I St : Type 0} → St → Tree K I St
empty store = record { store = store; leaf_list = []; max_keys_per_leaf = 1024 }

unfoldable pub set_max_leaf_size : {K I St : Type 0} → ℕ → Tree K I St → Result Error (Tree K I St)
set_max_leaf_size max_keys t =
    if ltb max_keys 2 then raise assertion_error else ok (record t { max_keys_per_leaf = max_keys })

module _ {K V I St : Type 0} ⦃ek : Eq K⦄ ⦃ok_ : Ord K⦄ ⦃ei : Eq I⦄
    (S : LeafStore K (Value V K I) I St) where
  -- `assert leaf is not None`, then the lookup in the leaf
  unfoldable pub lookup_in : I → Tree K I St → K → Result Error (Option (Value V K I))
  lookup_in leaf_id t key = elim (S.get_leaf t.store leaf_id) [
    | none ↦ raise assertion_error
    | some leaf ↦ ok (Leaf.lookup key leaf)
  ]

  unfoldable pub lookup : Tree K I St → K → Result Error (Option (Value V K I))
  unfolding lookup_in
  lookup t key = do
    leaf_id ← find_leaf_for_key key t.leaf_list
    elim leaf_id [ none ↦ ok none | some i ↦ lookup_in i t key ]

  unfoldable pub add_new_leaf : Tree K I St → K → Option (Value V K I) → Tree K I St
  add_new_leaf t key value =
      let (leaf_id, store) = S.put_leaf t.store (Leaf.insert key value []) in
      record t { store = store; leaf_list = insert_leaf key key leaf_id t.leaf_list }

  unfoldable pub make_split_leaf :
      Leaf K (Value V K I) → List K → Tree K I St → Result Error (Tree K I St)
  make_split_leaf leaf sorted_keys t = do
    let (new_id, store) = S.put_leaf t.store (Leaf.copy_keys sorted_keys leaf [])
    (first, last_one) ← ends sorted_keys
    ok (record t { store = store; leaf_list = insert_leaf first last_one new_id t.leaf_list })

  unfoldable pub split_leaf : Leaf K (Value V K I) → Tree K I St → Result Error (Tree K I St)
  unfolding make_split_leaf
  split_leaf leaf t = do
    let sorted_keys = sorted (keys leaf)
    let n = length sorted_keys / 2
    left ← make_split_leaf leaf (take n sorted_keys) t
    make_split_leaf leaf (drop n sorted_keys) left

  -- the leaf that `get_leaf` returned, after `leaf.insert(key, value)`
  unfoldable pub after_leaf_insert :
      I → Leaf K (Value V K I) → Tree K I St → Result Error (Tree K I St)
  unfolding split_leaf
  after_leaf_insert leaf_id leaf t = do
    (first, last_one) ← ends (sorted (keys leaf))
    let updated = update_leaf leaf_id first last_one t.leaf_list
    if ltb t.max_keys_per_leaf (Leaf.len leaf)
        then split_leaf leaf (record t { leaf_list = drop_leaf leaf_id updated })
        else ok (record t { leaf_list = updated })

  unfoldable pub insert_into_leaf :
      I → Tree K I St → K → Option (Value V K I) → Result Error (Tree K I St)
  unfolding after_leaf_insert
  insert_into_leaf leaf_id t key value = elim (S.get_leaf t.store leaf_id) [
    | none ↦ raise assertion_error
    | some leaf ↦
        let inserted = Leaf.insert key value leaf in
        after_leaf_insert leaf_id inserted (record t { store = S.update t.store leaf_id inserted })
  ]

  unfoldable pub insert : Tree K I St → K → Option (Value V K I) → Result Error (Tree K I St)
  unfolding add_new_leaf insert_into_leaf
  insert t key value = do
    leaf_id ← find_leaf_for_key key t.leaf_list
    elim leaf_id [ none ↦ ok (add_new_leaf t key value) | some i ↦ insert_into_leaf i t key value ]

  -- `tree.insert(key, value)` for each pair in turn
  unfoldable pub insert_all :
      Tree K I St → List (K × Option (Value V K I)) → Result Error (Tree K I St)
  insert_all t [] = ok t
  insert_all t ((key, v) ∷ rest) = insert t key v >>= λ t'. insert_all t' rest

  module _ (list_key : K) where
    -- stores the leaf list in a leaf of its own, under the key 'leaf_list'
    unfoldable pub commit : Tree K I St → I × Tree K I St
    commit t =
        let fake_leaf = Leaf.insert list_key (some (leaf_infos t.leaf_list)) [] in
        let (list_id, store) = S.put_leaf t.store fake_leaf in
        (list_id, record t { store = S.flush store })

    -- A leaf under `leaf_id` that holds no leaf list is an error here; Python raises at the next use.
    unfoldable pub set_list_node : I → Tree K I St → Result Error (Tree K I St)
    set_list_node leaf_id t = elim (S.get_leaf t.store leaf_id) [
      | none ↦ raise attribute_error
      | some fake_leaf ↦ elim (Leaf.lookup list_key fake_leaf) [
        | some (leaf_infos l) ↦ ok (record t { leaf_list = l })
        | _ ↦ raise type_error
      ]
    ]
