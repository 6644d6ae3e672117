-- ===== src/CowTree/Lookup.antt =====
-- `CowTree.lookup` on a well formed tree reads what the leaves hold.
use obnam.Prelude.{◌≡◌, refl, List, [], ◌∷◌, arith, subst}
use obnam.Prelude.Lists.{All, All-append_left, All-append_right}
use obnam.Prelude.Keys.{Eq, Ord}
use obnam.Prelude.Result.{ok}
use obnam.CowTree.Leaf
use obnam.CowTree.Leaf.{or_none}
use obnam.CowTree.LeafStore.{LeafStore, Laws}
use obnam.CowTree.LeafList.{LeafInfo, find_leaf_for_key}
use obnam.CowTree.Order.{Ordered, Located, find_leaf_for_key-Located}
use obnam.CowTree.Tree.{Tree, Value, lookup_in, lookup}
use obnam.CowTree.Valid.{Fits, IsValid, flat, flat-append, flat-Above, flat-Below}

module _ {K V I St : Type 0} ⦃ek : Eq K⦄ ⦃o : Ord K⦄ ⦃ei : Eq I⦄
    (S : LeafStore K (Value V K I) I St) where
  flat-Located :
      (t : Tree K I St) (key : K) (x : LeafInfo K I) (xs : List (LeafInfo K I))
      → (r : Located key (x ∷ xs) (find_leaf_for_key key (x ∷ xs)))
      → All (Fits S t.store t.max_keys_per_leaf) (x ∷ xs)
      → lookup_in S r.leaf.id t key ≡ ok (or_none (flat S t.store (x ∷ xs) key))
  unfolding lookup_in flat Leaf.lookup
  flat-Located t key x xs r f =
      let f' = subst (All (Fits S t.store t.max_keys_per_leaf)) r.split f in
      let fl = All-append_right (Fits S t.store t.max_keys_per_leaf) r.pre (r.leaf ∷ r.post) f' in
      let fp = All-append_left (Fits S t.store t.max_keys_per_leaf) r.pre (r.leaf ∷ r.post) f' in
      ground (
        arith,
        r.split,
        flat-append S t.store r.pre (r.leaf ∷ r.post) key,
        flat-Above S t.store t.max_keys_per_leaf r.pre key fp r.above,
        flat-Below S t.store t.max_keys_per_leaf r.post key fl.1 r.below,
        fl.0.stored,
      )

  lookup_list :
      (t : Tree K I St) (key : K) (l : List (LeafInfo K I))
      → t.leaf_list ≡ l
      → Ordered l
      → All (Fits S t.store t.max_keys_per_leaf) l
      → lookup S t key ≡ ok (or_none (flat S t.store l key))
  unfolding lookup flat find_leaf_for_key
  lookup_list t key [] e h f = rw (e, find_leaf_for_key)
  lookup_list t key (x ∷ xs) e h f =
      let r = find_leaf_for_key-Located key x xs h in rw (e, r.found) (flat-Located t key x xs r f)

  -- A lookup never fails, and returns what the leaves hold.
  pub lookup-flat :
      (L : Laws S) (t : Tree K I St) (key : K)
      → IsValid S L t
      → lookup S t key ≡ ok (or_none (flat S t.store t.leaf_list key))
  lookup-flat L t key v = lookup_list t key t.leaf_list refl v.ordered v.fits
