-- ===== src/CowTree/LeafStore.antt =====
-- obnamlib/fmt_ga/leaf_store.py: `LeafStoreInterface`, and `InMemoryLeafStore`.
-- `get_leaf` returns the stored object itself, so a caller's `leaf.insert` changes the store:
-- `update` is that effect.
use obnam.Prelude.{ℕ, ◌+◌, ◌<◌, ◌≡◌, refl, Option, none, some, [], arith}
use obnam.Prelude.Tests.{if◌then◌else◌}
use obnam.Prelude.Keys.{Eq, ◌==◌, nat_eq}
use obnam.Prelude.Dict.{Dict, get, put, get-put}
use obnam.CowTree.Leaf.{Leaf}

-- The operations that a tree calls. `I` is the type of leaf identifiers, `St` the store's state.
pub record LeafStore (K W I St : Type 0) : Type 0 where
  pub put_leaf : St → Leaf K W → I × St
  pub get_leaf : St → I → Option (Leaf K W)
  pub update : St → I → Leaf K W → St
  pub flush : St → St

-- What a tree needs of them: a new identifier for each leaf, and leaves that stay as they are.
pub record Laws {K W I St : Type 0} ⦃e : Eq I⦄ (S : LeafStore K W I St) : Type 1 where
  pub IsValid : St → Type 0
  pub put_leaf-IsValid : (s : St) (d : Leaf K W) → IsValid s → IsValid (S.put_leaf s d).1
  pub update-IsValid :
      (s : St) (i : I) (old d : Leaf K W)
      → S.get_leaf s i ≡ some old
      → IsValid s
      → IsValid (S.update s i d)
  pub flush-IsValid : (s : St) → IsValid s → IsValid (S.flush s)
  pub fresh : (s : St) (d : Leaf K W) → IsValid s → S.get_leaf s (S.put_leaf s d).0 ≡ none
  pub get_leaf-put_leaf :
      (s : St) (d : Leaf K W) (j : I)
      → IsValid s
      → S.get_leaf (S.put_leaf s d).1 j
        ≡ (if (S.put_leaf s d).0 == j then some d else S.get_leaf s j)
  pub get_leaf-update :
      (s : St) (i : I) (old d : Leaf K W) (j : I)
      → IsValid s
      → S.get_leaf s i ≡ some old
      → S.get_leaf (S.update s i d) j ≡ (if i == j then some d else S.get_leaf s j)
  pub get_leaf-flush : (s : St) (j : I) → IsValid s → S.get_leaf (S.flush s) j ≡ S.get_leaf s j

-- A store that is opened again has the leaves that were flushed. Nothing is said of a store that was
-- not flushed.
pub record Reopens {K W I St : Type 0} ⦃e : Eq I⦄ (S : LeafStore K W I St) (L : Laws S)
    : Type 0 where
  pub reopened : St → St
  pub reopened-IsValid : (s : St) → L.IsValid (S.flush s) → L.IsValid (reopened (S.flush s))
  pub get_leaf-reopened :
      (s : St) (j : I)
      → L.IsValid (S.flush s)
      → S.get_leaf (reopened (S.flush s)) j ≡ S.get_leaf (S.flush s) j

-- `InMemoryLeafStore`
pub record InMemory (K W : Type 0) : Type 0 where
  pub leaves : Dict ℕ (Leaf K W)
  pub counter : ℕ

module _ {K W : Type 0} where
  abbrev pub empty : InMemory K W
  empty = record { leaves = []; counter = 0 }

  unfoldable pub put_leaf : InMemory K W → Leaf K W → ℕ × InMemory K W
  put_leaf s leaf = (
    s.counter + 1,
    record { leaves = put (s.counter + 1) leaf s.leaves; counter = s.counter + 1 },
  )

  unfoldable pub get_leaf : InMemory K W → ℕ → Option (Leaf K W)
  get_leaf s leaf_id = get leaf_id s.leaves

  unfoldable pub update : InMemory K W → ℕ → Leaf K W → InMemory K W
  update s leaf_id leaf = record s { leaves = put leaf_id leaf s.leaves }

  unfoldable pub flush : InMemory K W → InMemory K W
  flush s = s

  abbrev pub in_memory : LeafStore K W ℕ (InMemory K W)
  in_memory = record { put_leaf = put_leaf; get_leaf = get_leaf; update = update; flush = flush }

  -- no identifier above the counter is in use
  abbrev pub InRange : InMemory K W → Type 0
  InRange s = (i : ℕ) → s.counter < i → get i s.leaves ≡ none

  put_leaf-InRange : (s : InMemory K W) (d : Leaf K W) → InRange s → InRange (put_leaf s d).1
  unfolding put_leaf
  put_leaf-InRange s d h i lt = ground (arith, get-put (s.counter + 1) i d s.leaves, h i)

  update-InRange :
      (s : InMemory K W) (i : ℕ) (old d : Leaf K W)
      → get_leaf s i ≡ some old
      → InRange s
      → InRange (update s i d)
  unfolding update get_leaf
  update-InRange s i old d g h j lt = ground (arith, get-put i j d s.leaves, h j)

  put_leaf-fresh :
      (s : InMemory K W) (d : Leaf K W) → InRange s → get_leaf s (put_leaf s d).0 ≡ none
  unfolding put_leaf get_leaf
  put_leaf-fresh s d h = h (s.counter + 1) (omega arith)

  get_leaf-put_leaf :
      (s : InMemory K W) (d : Leaf K W) (j : ℕ)
      → InRange s
      → get_leaf (put_leaf s d).1 j ≡ (if (put_leaf s d).0 == j then some d else get_leaf s j)
  unfolding put_leaf get_leaf
  get_leaf-put_leaf s d j h = get-put (s.counter + 1) j d s.leaves

  get_leaf-update :
      (s : InMemory K W) (i : ℕ) (old d : Leaf K W) (j : ℕ)
      → InRange s
      → get_leaf s i ≡ some old
      → get_leaf (update s i d) j ≡ (if i == j then some d else get_leaf s j)
  unfolding update get_leaf
  get_leaf-update s i old d j h g = get-put i j d s.leaves

  flush-InRange : (s : InMemory K W) → InRange s → InRange (flush s)
  unfolding flush
  flush-InRange s h = h

  get_leaf-flush : (s : InMemory K W) (j : ℕ) → InRange s → get_leaf (flush s) j ≡ get_leaf s j
  unfolding flush
  get_leaf-flush s j h = refl

  pub in_memory-Laws : Laws in_memory
  in_memory-Laws = record {
    IsValid = InRange;
    put_leaf-IsValid = put_leaf-InRange;
    update-IsValid = update-InRange;
    flush-IsValid = flush-InRange;
    fresh = put_leaf-fresh;
    get_leaf-put_leaf = get_leaf-put_leaf;
    get_leaf-update = get_leaf-update;
    get_leaf-flush = get_leaf-flush;
  }

  pub in_memory-IsValid : (s : InMemory K W) → InRange s → in_memory-Laws.IsValid s
  unfolding in_memory-Laws
  in_memory-IsValid s h = h

  -- An `InMemoryLeafStore` lives as long as the process, so it is its own reopening.
  pub in_memory-Reopens : Reopens in_memory in_memory-Laws
  in_memory-Reopens = record {
    reopened = λ s. s;
    reopened-IsValid = λ s h. h;
    get_leaf-reopened = λ s j h. refl;
  }
