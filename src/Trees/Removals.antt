-- ===== src/Trees/Removals.antt =====
-- What a tree reads as after `remove_directory`, and when it fails.
use obnam.Prelude.{
  ◌≡◌, refl, sym, ap, ◌∙◌, Bool, true, false, Option, none, some, [], ◌∷◌, arith, inl, inr,
}
use obnam.Prelude.Tests.{Bool-cases}
use obnam.Prelude.Keys.{◌==◌, nat_eq, list_eq, beq_refl, eq_of_beq}
use obnam.Prelude.Dict.{Dict, get, has, del, get-del, del-missing}
use obnam.Prelude.Result.{ok, raise}
use obnam.Bag.ObjectId.{Text}
use obnam.Directories.Directory.{
  Directory, immutable_error, require_mutable, create_from, remove_subdir, get_subdir_object_id,
}
use obnam.Trees.Paths.{Pathname}
use obnam.Trees.Tree.{
  ObjectStore, Tree, subdir_of, get_directory, parent_found, without_subdir, remove_from_parent,
  remove_directory,
}
use obnam.Trees.Views.{view, view-hit, get_directory-Read, or_read, if_root}
use obnam.Trees.Inside.{
  inside, inside-shorter, inside_tail, inside_tail_eq, inside_child, beq_of_outside,
}
use obnam.Trees.Parents.{get_directory-cache}
use obnam.Trees.Sets.{set_directory-Placed}

-- a directory without one subdirectory
abbrev pub shrunk : {V : Type 0} → Text → Directory V → Directory V
shrunk name d = record { metadata = d.metadata; subdirs = del name d.subdirs; mutable = true }

abbrev pub shrunk_if_any : {V : Type 0} → Text → Option (Directory V) → Option (Directory V)
shrunk_if_any name none = none
shrunk_if_any name (some d) = some (shrunk name d)

-- whether the cached parent, if there is one, can be changed
abbrev pub can_change : {V : Type 0} → Option (Directory V) → Bool
can_change none = true
can_change (some d) = d.mutable

module _ {V St : Type 0} where
  -- the cache without a directory
  abbrev pub uncached : Pathname → Tree V St → Tree V St
  uncached path t = record t { cache = del path t.cache }

module _ {V St : Type 0} (S : ObjectStore V St) where
  get-uncached_other :
      (p q : Pathname) (t : Tree V St)
      → (p == q) ≡ false
      → get q (uncached p t).cache ≡ get q t.cache
  get-uncached_other p q t h = ground (arith, h, get-del p q t.cache)

  get-uncached_self : (p : Pathname) (t : Tree V St) → get p (uncached p t).cache ≡ none
  get-uncached_self p t = ground (arith, beq_refl p, get-del p p t.cache)

  beq_sym : (p q : Pathname) → (q == p) ≡ false → (p == q) ≡ false
  beq_sym p q h = elim (Bool-cases (p == q)) [
    | inr c ↦ c
    | inl c ↦ absurd (ground (arith, h, beq_refl p, ap (λ r. r == p) (eq_of_beq p q c)))
  ]

  view-uncached_other :
      (t : Tree V St) (p q : Pathname) → inside q p ≡ false → view S (uncached p t) q ≡ view S t q
  unfolding view
  view-uncached_other t p [] h =
      let e = get-uncached_other p [] t (beq_sym p [] (unfold inside in h)) in ground (arith, e)
  view-uncached_other t p (n ∷ q) h =
      let e = get-uncached_other p (n ∷ q) t (beq_sym p (n ∷ q) (inside_tail_eq n q p h)) in
      ground (arith, e, view-uncached_other t p q (inside_tail n q p h))

  -- What a tree reads as once a directory is removed from its parent.
  pub record Removed (n : Text) (p : Pathname) (t t' : Tree V St) : Type 0 where
    pub gone : view S t' (n ∷ p) ≡ none
    pub parent : view S t' p ≡ shrunk_if_any n (view S t p)
    pub beside : (q : Pathname) → inside p q ≡ false → inside q p ≡ false → view S t' q ≡ view S t q
    pub below :
        (q : Pathname) → inside p q ≡ false → (n ∷ p == q) ≡ false → get q t'.cache ≡ get q t.cache

  if_root-none : (i : Option Text) → if_root S i none ≡ none
  if_root-none none = refl
  if_root-none (some i) = refl

  view-no_entry :
      (n : Text) (p : Pathname) (t : Tree V St) (o : Option (Directory V))
      → get (n ∷ p) t.cache ≡ none
      → view S t p ≡ shrunk_if_any n o
      → view S t (n ∷ p) ≡ none
  unfolding view get_subdir_object_id
  view-no_entry n p t none h e =
      ap (λ c. or_read S c (if_root S t.root_dir_id (subdir_of S t.store n (view S t p)))) h
      ∙ ap (λ o. if_root S t.root_dir_id (subdir_of S t.store n o)) e
      ∙ if_root-none t.root_dir_id
  view-no_entry n p t (some d) h e =
      ap (λ c. or_read S c (if_root S t.root_dir_id (subdir_of S t.store n (view S t p)))) h
      ∙ ap (λ o. if_root S t.root_dir_id (subdir_of S t.store n o)) e
      ∙ ap (λ o. if_root S t.root_dir_id o) (ground (arith, beq_refl n, get-del n n d.subdirs))
      ∙ if_root-none t.root_dir_id

  remove_subdir-mutable :
      (n : Text) (d : Directory V) → remove_subdir (create_from d) n ≡ ok (shrunk n d)
  unfolding remove_subdir require_mutable
  remove_subdir-mutable n d = elim (Bool-cases (has n d.subdirs)) [
    | inl c ↦ ground (arith, c)
    | inr c ↦ ground (
      arith,
      c,
      ap (λ (s : Dict Text (Option Text)). record d { subdirs = s; mutable = true })
          (sym (del-missing n d.subdirs c)),
    )
  ]

  remove_subdir-shrunk :
      (n : Text) (d : Directory V) → d.mutable ≡ true → remove_subdir d n ≡ ok (shrunk n d)
  remove_subdir-shrunk n d h =
      ap (λ b. remove_subdir (record d { mutable = b }) n) h ∙ remove_subdir-mutable n d

  remove_subdir-immutable :
      (n : Text) (d : Directory V) → d.mutable ≡ false → remove_subdir d n ≡ raise immutable_error
  unfolding remove_subdir require_mutable
  remove_subdir-immutable n d h = ground (arith, h)

  -- The tree in which the parent is set: it reads as the tree before the removal, but for the directory.
  record Ready (n : Text) (p : Pathname) (t t2 : Tree V St) : Type 0 where
    same : (q : Pathname) → inside q (n ∷ p) ≡ false → view S t2 q ≡ view S t q
    forgotten : get (n ∷ p) t2.cache ≡ none
    kept :
        (q : Pathname) → inside p q ≡ false → (n ∷ p == q) ≡ false → get q t2.cache ≡ get q t.cache

  found_some-Removed :
      (n : Text) (p : Pathname) (d : Directory V) (t t2 : Tree V St)
      → d.mutable ≡ true
      → some (shrunk n d) ≡ shrunk_if_any n (view S t p)
      → Ready n p t t2
      → (t' : Tree V St) × (without_subdir S p n (some d, t2) ≡ ok t') × Removed n p t t'
  found_some-Removed n p d t t2 h k R =
      let (t', e, P) = set_directory-Placed S p (shrunk n d) t2 in
      let out = inside-shorter p (n ∷ p) (omega arith) in
      (
        t',
        rw (remove_subdir-shrunk n d h) e,
        record {
          gone = view-no_entry n p t' (some d) (P.below (n ∷ p) out ∙ R.forgotten) P.here;
          parent = P.here ∙ k;
          beside = λ q i j. P.beside q i j ∙ R.same q (inside_child n q p j);
          below = λ q i j. P.below q i ∙ R.kept q i j;
        },
      )

  found_none-Removed :
      (n : Text) (p : Pathname) (t t2 : Tree V St)
      → view S t p ≡ none
      → Ready n p t t2
      → Removed n p t t2
  found_none-Removed n p t t2 h R =
      let out = inside-shorter p (n ∷ p) (omega arith) in
      let e = R.same p out ∙ h in
      record {
        gone = view-no_entry n p t2 none R.forgotten e;
        parent = e ∙ ap (λ o. shrunk_if_any n o) (sym h);
        beside = λ q i j. R.same q (inside_child n q p j);
        below = R.kept;
      }

  uncached-Ready : (n : Text) (p : Pathname) (t : Tree V St) → Ready n p t (uncached (n ∷ p) t)
  uncached-Ready n p t = record {
    same = λ q h. view-uncached_other t (n ∷ p) q h;
    forgotten = get-uncached_self (n ∷ p) t;
    kept = λ q h i. get-uncached_other (n ∷ p) q t i;
  }

  read-Ready :
      (n : Text) (p : Pathname) (t t1 : Tree V St)
      → Ready n p t t1
      → Ready n p t (get_directory S p t1).1
  read-Ready n p t t1 R =
      let r = get_directory-Read S p t1 in
      record {
        same = λ q h. r.same q ∙ R.same q h;
        forgotten =
            get_directory-cache S p (n ∷ p) t1 (inside-shorter p (n ∷ p) (omega arith))
            ∙ R.forgotten;
        kept = λ q h i. get_directory-cache S p q t1 h ∙ R.kept q h i;
      }

  found_by-Removed :
      (n : Text) (p : Pathname) (t t1 t2 : Tree V St) (hit read : Option (Directory V))
      → get p t1.cache ≡ hit
      → can_change hit ≡ true
      → Ready n p t t1
      → Ready n p t t2
      → read ≡ view S t1 p
      → (t' : Tree V St) × (without_subdir S p n (parent_found S hit (read, t2) t1) ≡ ok t')
        × Removed n p t t'
  found_by-Removed n p t t1 t2 (some d) read h c R1 R2 v =
      let out = inside-shorter p (n ∷ p) (omega arith) in
      found_some-Removed n p d t t1 c
        (ap (λ o. shrunk_if_any n o) (sym (view-hit S t1 p d h) ∙ R1.same p out)) R1
  found_by-Removed n p t t1 t2 none (some d) h c R1 R2 v =
      let out = inside-shorter p (n ∷ p) (omega arith) in
      found_some-Removed n p (create_from d) t t2 refl
        (ap (λ o. shrunk_if_any n o) (v ∙ R1.same p out)) R2
  found_by-Removed n p t t1 t2 none none h c R1 R2 v =
      let out = inside-shorter p (n ∷ p) (omega arith) in
      (t2, refl, found_none-Removed n p t t2 (sym (v ∙ R1.same p out)) R2)

  get-parent_uncached :
      (n : Text) (p : Pathname) (t : Tree V St) → get p (uncached (n ∷ p) t).cache ≡ get p t.cache
  get-parent_uncached n p t =
      get-uncached_other (n ∷ p) p t
        (beq_of_outside p (n ∷ p) (inside-shorter p (n ∷ p) (omega arith)))

  -- Removing a directory whose parent is not cached, or is cached and can be changed, succeeds. The
  -- directory is gone, the parent reads as before without its entry, and so does nothing beside the
  -- parent. What else is cached stays, and so do directories below the one that is removed.
  pub remove_directory-Removed :
      (n : Text) (p : Pathname) (t : Tree V St)
      → can_change (get p t.cache) ≡ true
      → (t' : Tree V St) × (remove_directory S (n ∷ p) t ≡ ok t') × Removed n p t t'
  unfolding remove_directory remove_from_parent
  remove_directory-Removed n p t h =
      let t1 = uncached (n ∷ p) t in
      let (read, t2) = get_directory S p t1 in
      let r = get_directory-Read S p t1 in
      found_by-Removed n p t t1 t2 (get p t1.cache) read refl
        (ap (λ o. can_change o) (get-parent_uncached n p t) ∙ h) (uncached-Ready n p t)
        (read-Ready n p t t1 (uncached-Ready n p t)) r.value

  immutable-by :
      (n : Text) (p : Pathname) (t1 t2 : Tree V St) (hit read : Option (Directory V))
      → can_change hit ≡ false
      → without_subdir S p n (parent_found S hit (read, t2) t1) ≡ raise immutable_error
  immutable-by n p t1 t2 none read h = absurd (ground (arith, h))
  immutable-by n p t1 t2 (some d) read h = rw (remove_subdir-immutable n d h)

  -- with the parent in the cache and immutable, removing a directory fails
  pub remove_directory-immutable :
      (n : Text) (p : Pathname) (t : Tree V St)
      → can_change (get p t.cache) ≡ false
      → remove_directory S (n ∷ p) t ≡ raise immutable_error
  unfolding remove_directory remove_from_parent
  remove_directory-immutable n p t h =
      let t1 = uncached (n ∷ p) t in
      let (read, t2) = get_directory S p t1 in
      immutable-by n p t1 t2 (get p t1.cache) read
        (ap (λ o. can_change o) (get-parent_uncached n p t) ∙ h)
