-- ===== src/CowTree/Contract.antt =====
-- What `CowTree` promises: inserts and lookups act as on one dict, and a committed tree reads back.
use obnam.Prelude.{
  ℕ, ◌≡◌, refl, sym, ap, ◌∙◌, subst, Option, some, List, [], ◌∷◌, ◌++◌, arith, inl, inr,
}
use obnam.Prelude.Tests.{if◌then◌else◌, ltb, Bool-cases, ltb→lt}
use obnam.Prelude.Keys.{Eq, Ord, ◌==◌, beq_refl}
use obnam.Prelude.Dict.{get, put}
use obnam.Prelude.Result.{ok}
use obnam.CowTree.Leaf
use obnam.CowTree.Leaf.{Leaf, or_none}
use obnam.CowTree.LeafStore.{Reopens, LeafStore, Laws}
use obnam.CowTree.LeafList.{LeafInfo, find_leaf_for_key, insert_leaf, sort, insert_sorted}
use obnam.CowTree.Order.{Located, find_leaf_for_key-Located}
use obnam.CowTree.Tree.{
  Tree, Value, tree_of, leaf_infos, add_new_leaf, insert_into_leaf, insert, insert_all, lookup,
  commit, set_list_node,
}
use obnam.CowTree.Valid.{IsValid, flat}
use obnam.CowTree.Middle.{SameLeaves, SameLeaves-trans, Fits-SameLeaves, flat-SameLeaves}
use obnam.CowTree.Stores.{get_leaf-put_leaf_self, fresh_ids, put_leaf-SameLeaves}
use obnam.CowTree.InsertOne.{inserted}
use obnam.CowTree.Insert.{Inserted, Site-of, insert_small, insert_full}
use obnam.CowTree.Lookup.{lookup-flat}

module _ {K V I St : Type 0} ⦃ek : Eq K⦄ ⦃o : Ord K⦄ ⦃ei : Eq I⦄
    (S : LeafStore K (Value V K I) I St) (L : Laws S) where
  insert_at :
      (s : St) (limit : ℕ) (key : K) (v : Option (Value V K I)) (l : List (LeafInfo K I))
      (r : Located key l (find_leaf_for_key key l))
      → IsValid S L (tree_of s limit (r.pre ++ r.leaf ∷ r.post))
      → Inserted S L
          (tree_of s limit (r.pre ++ r.leaf ∷ r.post))
          key
          v
          (insert_into_leaf S r.leaf.id (tree_of s limit (r.pre ++ r.leaf ∷ r.post)) key v)
  unfolding insert_into_leaf
  insert_at s limit key v l r h =
      let site = Site-of S L s limit key v r.pre r.leaf r.post h r.above r.below in
      rw (site.fits.stored, insert_into_leaf)
        (elim (Bool-cases
          (ltb limit (Leaf.len (inserted S L s limit key v r.pre r.leaf r.post site)))) [
            | inl c ↦ insert_full S L s limit key v r.pre r.leaf r.post h site (ltb→lt _ _ c)
            | inr c ↦ insert_small S L s limit key v r.pre r.leaf r.post h site c
          ])

  insert_empty :
      (s : St) (limit : ℕ) (key : K) (v : Option (Value V K I))
      → IsValid S L (tree_of s limit [])
      → Inserted S L (tree_of s limit []) key v (ok (add_new_leaf S (tree_of s limit []) key v))
  unfolding add_new_leaf insert_leaf sort insert_sorted Leaf.insert put flat get
  insert_empty s limit key v h =
      let d = Leaf.insert key v [] in
      let st = get_leaf-put_leaf_self S L s d h.store_valid in
      record {
        after = add_new_leaf S (tree_of s limit []) key v;
        returns = refl;
        valid = record {
          store_valid = L.put_leaf-IsValid s d h.store_valid;
          ordered = ((o.le_refl key, tt), tt);
          fits = (
            record {
              leaf = d;
              stored = st;
              low = (o.le_refl key, tt);
              high = (o.le_refl key, tt);
              distinct = (tt, tt);
              small = omega (arith, h.room);
            },
            tt,
          );
          room = h.room;
        };
        capacity = refl;
        holds = λ j. ground (arith, st);
      }

  insert_list :
      (s : St) (limit : ℕ) (key : K) (v : Option (Value V K I)) (l : List (LeafInfo K I))
      → IsValid S L (tree_of s limit l)
      → Inserted S L (tree_of s limit l) key v (insert S (tree_of s limit l) key v)
  unfolding insert find_leaf_for_key
  insert_list s limit key v [] h = insert_empty s limit key v h
  insert_list s limit key v (x ∷ xs) h =
      let r = find_leaf_for_key-Located key x xs h.ordered in
      rw r.found (
        subst
          (λ (l : List (LeafInfo K I)).
            Inserted S L (tree_of s limit l) key v
              (insert_into_leaf S r.leaf.id (tree_of s limit l) key v))
          (sym r.split)
          (insert_at s limit key v (x ∷ xs) r
            (subst (λ l. IsValid S L (tree_of s limit l)) r.split h)))

  insert-Inserted :
      (t : Tree K I St) (key : K) (v : Option (Value V K I))
      → IsValid S L t
      → Inserted S L t key v (insert S t key v)
  insert-Inserted t key v h = insert_list t.store t.max_keys_per_leaf key v t.leaf_list h

  -- An insert into a well formed tree never fails, and returns a well formed tree of the same leaf
  -- size, in which the inserted key reads as the inserted value and every other key reads as before.
  pub insert_lem :
      (t : Tree K I St) (key : K) (v : Option (Value V K I))
      → IsValid S L t
      → (t' : Tree K I St) × (insert S t key v ≡ ok t')
        × IsValid S L t'
        × (t'.max_keys_per_leaf ≡ t.max_keys_per_leaf)
        × ((j : K) → lookup S t' j ≡ (if key == j then ok v else lookup S t j))
  insert_lem t key v h =
      let r = insert-Inserted t key v h in
      (
        r.after,
        r.returns,
        r.valid,
        r.capacity,
        λ j. ground (arith, lookup-flat S L r.after j r.valid, lookup-flat S L t j h, r.holds j),
      )

  lookup-insert :
      (key j : K) (v : Option (Value V K I)) (d : Leaf K (Value V K I))
      → Leaf.lookup j (Leaf.insert key v d) ≡ (if key == j then v else Leaf.lookup j d)
  unfolding Leaf.lookup
  lookup-insert key j v d = ground (arith, Leaf.get-insert key j v d)

  -- A well formed tree that reads as a dict does still reads as that dict does when the same
  -- inserts were made in both, and none of the inserts fails.
  pub insert_all-put_all :
      (t : Tree K I St) (d : Leaf K (Value V K I)) (entries : List (K × Option (Value V K I)))
      → IsValid S L t
      → ((j : K) → lookup S t j ≡ ok (Leaf.lookup j d))
      → (t' : Tree K I St) × (insert_all S t entries ≡ ok t')
        × IsValid S L t'
        × ((j : K) → lookup S t' j ≡ ok (Leaf.lookup j (Leaf.put_all d entries)))
  unfolding insert_all Leaf.put_all
  insert_all-put_all t d [] h e = (t, refl, h, e)
  insert_all-put_all t d ((key, v) ∷ rest) h e =
      let (t1, returns, valid, capacity, reads) = insert_lem t key v h in
      rw returns (
        insert_all-put_all t1 (Leaf.insert key v d) rest valid
          (λ j. ground (arith, reads j, e j, lookup-insert key j v d)))

  reopened-SameLeaves :
      (R : Reopens S L) (s : St) (xs : List (LeafInfo K I))
      → L.IsValid (S.flush s)
      → SameLeaves S (S.flush s) (R.reopened (S.flush s)) xs
  reopened-SameLeaves R s [] h = tt
  reopened-SameLeaves R s (x ∷ xs) h = (R.get_leaf-reopened s x.id h, reopened-SameLeaves R s xs h)

  flush-SameLeaves :
      (s : St) (xs : List (LeafInfo K I)) → L.IsValid s → SameLeaves S s (S.flush s) xs
  flush-SameLeaves s [] h = tt
  flush-SameLeaves s (x ∷ xs) h = (L.get_leaf-flush s x.id h, flush-SameLeaves s xs h)

  read_list :
      (list_key : K) (t : Tree K I St) (st : St)
      → S.get_leaf st (commit S list_key t).0
        ≡ some (Leaf.insert list_key (some (leaf_infos t.leaf_list)) [])
      → set_list_node S list_key (commit S list_key t).0 (tree_of st t.max_keys_per_leaf [])
        ≡ ok (tree_of st t.max_keys_per_leaf t.leaf_list)
  unfolding set_list_node Leaf.lookup Leaf.insert put get
  read_list list_key t st e = rw (e, set_list_node, beq_refl list_key)

  -- What `commit` stores, a new tree reads back over the store that is opened again, if that has what
  -- was flushed: after `set_list_node` with the identifier that `commit` returned, it is well formed and
  -- every key reads as in the old tree, which was well formed.
  pub set_list_node-commit :
      (R : Reopens S L) (list_key : K) (t : Tree K I St)
      → IsValid S L t
      → (u : Tree K I St) × (set_list_node S list_key
            (commit S list_key t).0
            (tree_of (R.reopened (commit S list_key t).1.store) t.max_keys_per_leaf [])
          ≡ ok u)
        × IsValid S L u
        × ((j : K) → lookup S u j ≡ lookup S t j)
  unfolding commit
  set_list_node-commit R list_key t h =
      let d = Leaf.insert list_key (some (leaf_infos t.leaf_list)) [] in
      let s1 = (S.put_leaf t.store d).1 in
      let s2 = R.reopened (S.flush s1) in
      let hv = L.put_leaf-IsValid t.store d h.store_valid in
      let hf = L.flush-IsValid s1 hv in
      let same1 =
        put_leaf-SameLeaves S L t.store d t.leaf_list h.store_valid
          (fresh_ids S L t.store d t.max_keys_per_leaf t.leaf_list h.store_valid h.fits) in
      let same2 = flush-SameLeaves s1 t.leaf_list hv in
      let same3 = reopened-SameLeaves R s1 t.leaf_list hf in
      let same =
        SameLeaves-trans S t.store (S.flush s1) s2 t.leaf_list
          (SameLeaves-trans S t.store s1 (S.flush s1) t.leaf_list same1 same2) same3 in
      let u = tree_of s2 t.max_keys_per_leaf t.leaf_list in
      let valid : IsValid S L u = record {
        store_valid = R.reopened-IsValid s1 hf;
        ordered = h.ordered;
        fits = Fits-SameLeaves S t.store s2 t.max_keys_per_leaf t.leaf_list same h.fits;
        room = h.room;
      } in
      (
        u,
        read_list list_key t s2 (
            R.get_leaf-reopened s1 (S.put_leaf t.store d).0 hf
            ∙ L.get_leaf-flush s1 (S.put_leaf t.store d).0 hv
            ∙ get_leaf-put_leaf_self S L t.store d h.store_valid),
        valid,
        λ j.
            lookup-flat S L u j valid
            ∙ ap (λ x. ok (or_none x)) (flat-SameLeaves S t.store s2 t.leaf_list j same)
            ∙ sym (lookup-flat S L t j h),
      )
