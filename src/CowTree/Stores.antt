-- ===== src/CowTree/Stores.antt =====
-- A leaf that a tree puts or changes is none of the tree's other leaves.
use obnam.Prelude.{ℕ, ◌≡◌, false, some, List, [], ◌∷◌, arith}
use obnam.Prelude.Lists.{All, All-map}
use obnam.Prelude.Keys.{Eq, Ord, ◌==◌, beq_refl, beq_of_ne}
use obnam.CowTree.Leaf.{Leaf}
use obnam.CowTree.LeafStore.{LeafStore, Laws}
use obnam.CowTree.LeafList.{LeafInfo}
use obnam.CowTree.Order.{Before, AllBefore}
use obnam.CowTree.Tree.{Value}
use obnam.CowTree.Valid.{Fits}
use obnam.CowTree.Middle.{SameLeaves}

module _ {K V I St : Type 0} ⦃ek : Eq K⦄ ⦃o : Ord K⦄ ⦃ei : Eq I⦄
    (S : LeafStore K (Value V K I) I St) (L : Laws S) where
  pub beq_symm : (i j : I) → (i == j) ≡ false → (j == i) ≡ false
  beq_symm i j h = ground (arith, ei.beq_iff i j, ei.beq_iff j i)

  fresh_ne :
      (s : St) (d : Leaf K (Value V K I)) (limit : ℕ) (x : LeafInfo K I)
      → L.IsValid s
      → Fits S s limit x
      → (x.id == (S.put_leaf s d).0) ≡ false
  fresh_ne s d limit x hv f =
      beq_of_ne x.id (S.put_leaf s d).0 (λ e. cc (e, f.stored, L.fresh s d hv))

  -- the identifier of a new leaf is not in use
  pub fresh_ids :
      (s : St) (d : Leaf K (Value V K I)) (limit : ℕ) (xs : List (LeafInfo K I))
      → L.IsValid s
      → All (Fits S s limit) xs
      → All (λ x. (x.id == (S.put_leaf s d).0) ≡ false) xs
  fresh_ids s d limit xs hv f =
      All-map (Fits S s limit) (λ x. (x.id == (S.put_leaf s d).0) ≡ false) xs
        (λ x. fresh_ne s d limit x hv) f

  pub put_leaf-SameLeaves :
      (s : St) (d : Leaf K (Value V K I)) (xs : List (LeafInfo K I))
      → L.IsValid s
      → All (λ x. (x.id == (S.put_leaf s d).0) ≡ false) xs
      → SameLeaves S s (S.put_leaf s d).1 xs
  put_leaf-SameLeaves s d [] hv f = tt
  put_leaf-SameLeaves s d (x ∷ xs) hv f = (
    rw (L.get_leaf-put_leaf s d x.id hv, beq_symm x.id (S.put_leaf s d).0 f.0),
    put_leaf-SameLeaves s d xs hv f.1,
  )

  pub get_leaf-put_leaf_self :
      (s : St) (d : Leaf K (Value V K I))
      → L.IsValid s
      → S.get_leaf (S.put_leaf s d).1 (S.put_leaf s d).0 ≡ some d
  get_leaf-put_leaf_self s d hv =
      rw (L.get_leaf-put_leaf s d (S.put_leaf s d).0 hv, beq_refl (S.put_leaf s d).0)

  pub update-SameLeaves :
      (s : St) (i : I) (old d : Leaf K (Value V K I)) (xs : List (LeafInfo K I))
      → L.IsValid s
      → S.get_leaf s i ≡ some old
      → All (λ x. (x.id == i) ≡ false) xs
      → SameLeaves S s (S.update s i d) xs
  update-SameLeaves s i old d [] hv e f = tt
  update-SameLeaves s i old d (x ∷ xs) hv e f = (
    rw (L.get_leaf-update s i old d x.id hv e, beq_symm x.id i f.0),
    update-SameLeaves s i old d xs hv e f.1,
  )

  pub get_leaf-update_self :
      (s : St) (i : I) (old d : Leaf K (Value V K I))
      → L.IsValid s
      → S.get_leaf s i ≡ some old
      → S.get_leaf (S.update s i d) i ≡ some d
  get_leaf-update_self s i old d hv e = rw (L.get_leaf-update s i old d i hv e, beq_refl i)

  -- identifiers of the parts of an ordered list
  pub ids_above :
      (pre post : List (LeafInfo K I)) (li : LeafInfo K I)
      → AllBefore pre (li ∷ post)
      → All (λ x. (x.id == li.id) ≡ false) pre
  ids_above [] post li h = tt
  ids_above (p ∷ pre) post li h = (h.0.0.1, ids_above pre post li h.1)

  pub ids_below :
      (post : List (LeafInfo K I)) (li : LeafInfo K I)
      → All (Before li) post
      → All (λ x. (x.id == li.id) ≡ false) post
  ids_below post li h =
      All-map (Before li) (λ x. (x.id == li.id) ≡ false) post (λ x b. beq_symm li.id x.id b.1) h
