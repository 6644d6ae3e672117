-- ===== src/Tests/CowTree.antt =====
-- The tree of obnamlib/fmt_ga/cowtree.py over the in-memory leaf store.
use obnam.Prelude.{ℕ, ◌≡◌, refl, Option, none, some, List, [], ◌∷◌, arith}
use obnam.Prelude.Tests.{if◌then◌else◌}
use obnam.Prelude.Keys.{◌==◌, nat_eq, nat_ord}
use obnam.Prelude.Dict.{get, put}
use obnam.Prelude.Sorted.{sorted}
use obnam.Prelude.Result.{ok}
use obnam.CowTree.Leaf
use obnam.CowTree.Leaf.{Leaf}
use obnam.CowTree.LeafStore.{
  in_memory-Reopens, InMemory, put_leaf, get_leaf, update, in_memory, in_memory-Laws,
  in_memory-IsValid, flush,
}
use obnam.CowTree.LeafList.{find_leaf_for_key, insert_leaf, sort, update_leaf, drop_leaf}
use obnam.CowTree.Tree.{
  Tree, Value, item, tree_of, lookup, insert, insert_all, commit, set_list_node,
}
use obnam.CowTree.Valid.{IsValid}
use obnam.CowTree.Contract

abbrev Val : Type 0
Val = Value ℕ ℕ ℕ

abbrev Store : Type 0
Store = InMemory ℕ Val

-- one full leaf, of two keys
abbrev store : Store
store = record {
  leaves = (1, (10, some (item 100)) ∷ (30, some (item 300)) ∷ []) ∷ [];
  counter = 1;
}

abbrev tree : Tree ℕ ℕ Store
tree = tree_of store 2 (record { first_key = 10; last_key = 30; id = 1 } ∷ [])

program : Unit {0}
unfolding put_leaf get_leaf update flush sort find_leaf_for_key insert_leaf update_leaf drop_leaf
    lookup insert commit set_list_node Leaf.lookup Leaf.insert Leaf.copy_keys get put sorted
program = tt

-- the third key splits the leaf in one of one key and one of two
split_run :
    (insert in_memory tree 20 (some (item 200)))
    ≡ ok (
        tree_of
          (record {
            leaves =
                (1, (10, some (item 100)) ∷ (30, some (item 300)) ∷ (20, some (item 200)) ∷ [])
                ∷ (2, (10, some (item 100)) ∷ [])
                ∷ (3, (20, some (item 200)) ∷ (30, some (item 300)) ∷ [])
                ∷ [];
            counter = 3;
          })
          2
          (record { first_key = 10; last_key = 10; id = 2 }
            ∷ record { first_key = 20; last_key = 30; id = 3 }
            ∷ []))
unfolding program
split_run = refl

tree-IsValid : IsValid in_memory in_memory-Laws tree
unfolding get_leaf get
tree-IsValid = record {
  store_valid = in_memory-IsValid store (λ i h. ground arith);
  ordered = ((refl, tt), tt);
  fits = (
    record {
      leaf = (10, some (item 100)) ∷ (30, some (item 300)) ∷ [];
      stored = refl;
      low = (refl, (refl, tt));
      high = (refl, (refl, tt));
      distinct = ((refl, tt), (tt, tt));
      small = omega arith;
    },
    tt,
  );
  room = omega arith;
}

insert_lem_example :
    (t' : Tree ℕ ℕ Store) × (insert in_memory tree 20 (some (item 200)) ≡ ok t')
    × IsValid in_memory in_memory-Laws t'
    × (t'.max_keys_per_leaf ≡ tree.max_keys_per_leaf)
    × ((j : ℕ)
        → lookup in_memory t' j
          ≡ (if 20 == j then ok (some (item 200)) else lookup in_memory tree j))
insert_lem_example =
    Contract.insert_lem in_memory in_memory-Laws tree 20 (some (item 200)) tree-IsValid

abbrev entries : List (ℕ × Option Val)
entries = (20, some (item 200)) ∷ (40, none) ∷ (5, some (item 50)) ∷ []

tree_reads :
    (j : ℕ)
    → lookup in_memory tree j
      ≡ ok (Leaf.lookup j ((10, some (item 100)) ∷ (30, some (item 300)) ∷ []))
unfolding lookup find_leaf_for_key get_leaf get
tree_reads j = ground arith

insert_all-put_all_example :
    (t' : Tree ℕ ℕ Store) × (insert_all in_memory tree entries ≡ ok t')
    × IsValid in_memory in_memory-Laws t'
    × ((j : ℕ)
        → lookup in_memory t' j
          ≡ ok (
              Leaf.lookup j
                (Leaf.put_all ((10, some (item 100)) ∷ (30, some (item 300)) ∷ []) entries)))
insert_all-put_all_example =
    Contract.insert_all-put_all in_memory in_memory-Laws tree
      ((10, some (item 100)) ∷ (30, some (item 300)) ∷ []) entries tree-IsValid tree_reads

set_list_node-commit_example :
    (u : Tree ℕ ℕ Store) × (set_list_node in_memory 0 (commit in_memory 0 tree).0 (
        tree_of
          (in_memory-Reopens.reopened (commit in_memory 0 tree).1.store)
          tree.max_keys_per_leaf
          [])
      ≡ ok u)
    × IsValid in_memory in_memory-Laws u
    × ((j : ℕ) → lookup in_memory u j ≡ lookup in_memory tree j)
set_list_node-commit_example =
    Contract.set_list_node-commit in_memory in_memory-Laws in_memory-Reopens 0 tree tree-IsValid
