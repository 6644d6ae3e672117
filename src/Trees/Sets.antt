-- ===== src/Trees/Sets.antt =====
-- What a tree reads as after `set_directory`.
use obnam.Prelude.{
  ◌≡◌, refl, sym, ap, ◌∙◌, true, false, Option, none, some, [], ◌∷◌, ◌++◌, arith, inl, inr,
}
use obnam.Prelude.Tests.{Bool-cases}
use obnam.Prelude.Lists.{length, length-append}
use obnam.Prelude.Keys.{◌==◌, nat_eq, list_eq, beq_refl, eq_of_beq}
use obnam.Prelude.Dict.{get, get-put_self, get-put_other}
use obnam.Prelude.Result.{ok}
use obnam.Bag.ObjectId.{Text}
use obnam.Directories.Directory.{Directory, add_subdir, get_subdir_object_id}
use obnam.Trees.Paths.{Pathname, dirname, basename}
use obnam.Trees.Tree.{ObjectStore, Tree, cached, as_mutable, subdir_of, parent_for, set_directory}
use obnam.Trees.Views.{view, view-hit, or_read, if_root}
use obnam.Trees.Inside.{
  inside, inside_refl, inside-shorter, inside-longer, inside_tail, inside_tail_eq, inside_step,
  inside-not, beq_of_outside,
}
use obnam.Trees.Parents.{grown, view-cached_other, EntryMade, parent_for-EntryMade}

module _ {V St : Type 0} (S : ObjectStore V St) where
  -- What a tree reads as once a directory is set in it.
  pub record Placed (p : Pathname) (d : Directory V) (t t' : Tree V St) : Type 0 where
    pub here : view S t' p ≡ some d
    pub above :
        (xs : Pathname) (name : Text) (q : Pathname)
        → p ≡ xs ++ name ∷ q
        → view S t' q ≡ some (grown name (view S t q))
    pub beside : (q : Pathname) → inside p q ≡ false → inside q p ≡ false → view S t' q ≡ view S t q
    pub below : (q : Pathname) → inside p q ≡ false → get q t'.cache ≡ get q t.cache
    pub store : t'.store ≡ t.store
    pub root : t'.root_dir_id ≡ t.root_dir_id

  pub set_directory-steps :
      (n : Text) (p : Pathname) (d parent changed : Directory V) (t t1 t2 : Tree V St)
      → parent_for S p (cached (n ∷ p) d t) ≡ ok (parent, t1)
      → add_subdir (as_mutable parent) n none ≡ ok changed
      → set_directory S p changed t1 ≡ ok t2
      → set_directory S (n ∷ p) d t ≡ ok t2
  unfolding set_directory
  set_directory-steps n p d parent changed t t1 t2 h k l = rw (h, k, l)

  -- the subdirectories of a grown directory, but for the new one
  subdir_of-grown :
      (n k : Text) (o : Option (Directory V)) (st : St)
      → (n == k) ≡ false
      → subdir_of S st k (some (grown n o)) ≡ subdir_of S st k o
  unfolding get_subdir_object_id get
  subdir_of-grown n k none st h = ground (arith, h)
  subdir_of-grown n k (some d) st h = ground (arith, h, get-put_other n k none d.subdirs h)

  pub view-step :
      (m : Text) (r : Pathname) (t t' : Tree V St)
      → get (m ∷ r) t'.cache ≡ get (m ∷ r) t.cache
      → t'.store ≡ t.store
      → t'.root_dir_id ≡ t.root_dir_id
      → subdir_of S t.store m (view S t' r) ≡ subdir_of S t.store m (view S t r)
      → view S t' (m ∷ r) ≡ view S t (m ∷ r)
  unfolding view
  view-step m r t t' c s i h =
      ap (λ o. or_read S o (if_root S t'.root_dir_id (subdir_of S t'.store m (view S t' r)))) c
      ∙ ap
          (λ o.
            or_read S (get (m ∷ r) t.cache) (if_root S o (subdir_of S t'.store m (view S t' r))))
          i
      ∙ ap
          (λ o.
            or_read S (get (m ∷ r) t.cache)
              (if_root S t.root_dir_id (subdir_of S o m (view S t' r))))
          s
      ∙ ap (λ o. or_read S (get (m ∷ r) t.cache) (if_root S t.root_dir_id o)) h

  sibling_name :
      (n m : Text) (p r : Pathname) → inside (n ∷ p) (m ∷ r) ≡ false → r ≡ p → (n == m) ≡ false
  sibling_name n m p r h e = elim (Bool-cases (n == m)) [
    | inr c ↦ c
    | inl c ↦
        let f : inside (n ∷ p) (m ∷ r) ≡ true =
          ap (λ k. inside (n ∷ p) (k ∷ r)) (sym (eq_of_beq n m c))
          ∙ ap (λ q. inside (n ∷ p) (n ∷ q)) e
          ∙ inside_refl (n ∷ p) in
        absurd (ground (arith, h, f))
  ]

  -- A path inside the parent of a set directory, but not inside the directory.
  module _ (n : Text) (p : Pathname) (t t' : Tree V St)
      (below : (q : Pathname) → inside (n ∷ p) q ≡ false → get q t'.cache ≡ get q t.cache)
      (parent : view S t' p ≡ some (grown n (view S t p))) (store : t'.store ≡ t.store)
      (root : t'.root_dir_id ≡ t.root_dir_id) where
    view-sibling :
        (q : Pathname)
        → inside (n ∷ p) q ≡ false
        → inside q (n ∷ p) ≡ false
        → inside q p ≡ true
        → (q == p) ≡ false
        → view S t' q ≡ view S t q
    unfolding inside
    view-sibling [] h i j k = absurd (ground (arith, j, k))
    view-sibling (m ∷ r) h i j k = elim (Bool-cases (r == p)) [
      | inl c ↦
          let e = eq_of_beq r p c in
          view-step m r t t' (below (m ∷ r) h) store root (
            ap (λ o. subdir_of S t.store m (view S t' o)) e
            ∙ ap (λ o. subdir_of S t.store m o) parent
            ∙ subdir_of-grown n m (view S t p) t.store (sibling_name n m p r h e)
            ∙ ap (λ o. subdir_of S t.store m (view S t o)) (sym e))
      | inr c ↦
          let j' = inside_step m r p j k in
          let i' = inside_tail m r (n ∷ p) i in
          let short = inside-shorter p r (inside-longer r p j' c) in
          let e = view-sibling r (inside-not n p r i' short) i' j' c in
          view-step m r t t' (below (m ∷ r) h) store root (ap (λ o. subdir_of S t.store m o) e)
    ]

  get-cached_other :
      (p q : Pathname) (d : Directory V) (t : Tree V St)
      → (p == q) ≡ false
      → get q (cached p d t).cache ≡ get q t.cache
  get-cached_other p q d t h = get-put_other p q d t.cache h

  -- The steps of one call: the directory is cached, its parent is found and is set with the new entry.
  module _ (n : Text) (p : Pathname) (d : Directory V) (t : Tree V St)
      (P : EntryMade S n p (cached (n ∷ p) d t)) (t' : Tree V St)
      (e : set_directory S p (grown n (view S (cached (n ∷ p) d t) p)) P.tree ≡ ok t')
      (Q : Placed p (grown n (view S (cached (n ∷ p) d t) p)) P.tree t') where
    outside-view : (q : Pathname) → inside q (n ∷ p) ≡ false → view S P.tree q ≡ view S t q
    outside-view q h = P.same q ∙ view-cached_other S t (n ∷ p) q d h

    cons-below : (q : Pathname) → inside (n ∷ p) q ≡ false → get q t'.cache ≡ get q t.cache
    cons-below q h =
        let h' = inside_tail n p q h in
        Q.below q h' ∙ P.above q h' ∙ get-cached_other (n ∷ p) q d t (inside_tail_eq n p q h)

    cons-here : view S t' (n ∷ p) ≡ some d
    cons-here =
        let h = inside-shorter p (n ∷ p) (omega arith) in
        view-hit S t' (n ∷ p) d (
          Q.below (n ∷ p) h
          ∙ P.above (n ∷ p) h
          ∙ get-put_self (n ∷ p) (n ∷ p) d t.cache (beq_refl (n ∷ p)))

    cons-parent : view S t' p ≡ some (grown n (view S t p))
    cons-parent =
        Q.here
        ∙ ap (λ o. some (grown n o))
            (view-cached_other S t (n ∷ p) p d (inside-shorter p (n ∷ p) (omega arith)))

    cons-above :
        (xs : Pathname) (name : Text) (q : Pathname)
        → n ∷ p ≡ xs ++ name ∷ q
        → view S t' q ≡ some (grown name (view S t q))
    cons-above [] name q h =
        ap (λ r. view S t' r) (sym (ap dirname h))
        ∙ cons-parent
        ∙ ap (λ k. some (grown k (view S t p))) (ap basename h)
        ∙ ap (λ r. some (grown name (view S t r))) (ap dirname h)
    cons-above (x ∷ xs) name q h =
        let k : p ≡ xs ++ name ∷ q = ap dirname h in
        let l = ap (λ r. length r) k ∙ length-append xs (name ∷ q) in
        Q.above xs name q k
        ∙ ap (λ o. some (grown name o))
            (outside-view q (inside-shorter q (n ∷ p) (omega (arith, l))))

    cons-beside :
        (q : Pathname)
        → inside (n ∷ p) q ≡ false
        → inside q (n ∷ p) ≡ false
        → view S t' q ≡ view S t q
    cons-beside q h i = elim (Bool-cases (inside q p)) [
      | inl j ↦
          view-sibling n p t t' cons-below cons-parent (Q.store ∙ P.store) (Q.root ∙ P.root) q h i j
            (beq_of_outside p q (inside_tail n p q h))
      | inr j ↦ Q.beside q (inside_tail n p q h) j ∙ outside-view q i
    ]

    cons-Placed : Placed (n ∷ p) d t t'
    cons-Placed = record {
      here = cons-here;
      above = cons-above;
      beside = cons-beside;
      below = cons-below;
      store = Q.store ∙ P.store;
      root = Q.root ∙ P.root;
    }

  root-Placed : (d : Directory V) (t : Tree V St) → Placed [] d t (cached [] d t)
  root-Placed d t = record {
    here = view-hit S (cached [] d t) [] d (get-put_self [] [] d t.cache refl);
    above =
        λ xs name q h. absurd (omega (arith, ap (λ r. length r) h ∙ length-append xs (name ∷ q)));
    beside = λ q h i. view-cached_other S t [] q d i;
    below = λ q h. get-cached_other [] q d t (unfold inside in h);
    store = refl;
    root = refl;
  }

  -- `set_directory` never fails. The directory then reads as what was set, every directory above it has
  -- the entry of the next one below, and reads as before otherwise. A directory beside it reads as
  -- before, and what is cached below it stays. The store and the root are as before.
  pub set_directory-Placed :
      (p : Pathname) (d : Directory V) (t : Tree V St)
      → (t' : Tree V St) × (set_directory S p d t ≡ ok t') × Placed p d t t'
  unfolding set_directory
  set_directory-Placed [] d t = (cached [] d t, refl, root-Placed d t)
  set_directory-Placed (n ∷ p) d t =
      let P = parent_for-EntryMade S n p (cached (n ∷ p) d t) in
      let changed = grown n (view S (cached (n ∷ p) d t) p) in
      let (t', e, Q) = set_directory-Placed p changed P.tree in
      (
        t',
        set_directory-steps n p d P.parent changed t P.tree t' P.returns P.entry e,
        cons-Placed n p d t P t' e Q,
      )
