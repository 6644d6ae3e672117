-- ===== src/Trees/Fixup.antt =====
-- What `_fixup_subdir_refs` of obnamlib/fmt_ga/tree.py stores.
use obnam.Prelude.{
  ℕ, zero, suc, ◌+◌, ◌≤◌, ◌≡◌, refl, sym, ap, subst, ◌∙◌, true, Option, none, some, List, [], ◌∷◌,
  arith, inl, inr,
}
use obnam.Prelude.Tests.{Bool-cases}
use obnam.Prelude.Lists.{length, All, All-map}
use obnam.Prelude.Keys.{◌==◌, nat_eq, list_eq, beq_refl, eq_of_beq, contains}
use obnam.Prelude.Dict.{Dict, keys, get, put, get-put_self}
use obnam.Prelude.Result.{Result, ok, ◌>>=◌}
use obnam.Bag.ObjectId.{Text}
use obnam.Directories.Directory.{
  Directory, Error, set_immutable, require_mutable, add_subdir, get_subdir_object_id, or_none,
}
use obnam.Trees.Paths.{Pathname}
use obnam.Trees.Tree.{ObjectStore, fixup_each, fixup_subdir_refs, depth}
use obnam.Trees.Entries.{
  keys-put_present, get-put_apart, pending-put, stored-put, present-put, present-keys,
  contains-keys,
}

-- A store that keeps what is put in it, and that has what was flushed when it is opened again. An
-- object that is stored has the files and the subdirectories of its directory; whether the directory
-- could be changed is not stored.
pub record Keeping {V St : Type 0} (S : ObjectStore V St) : Type 0 where
  pub put_gives :
      (st : St) (d : Directory V)
      → (e : Directory V) × (S.get_object (S.put_object st d).1 (S.put_object st d).0 ≡ some e)
        × (set_immutable e ≡ set_immutable d)
  pub put_keeps :
      (st : St) (d e : Directory V) (i : Text)
      → S.get_object st i ≡ some e
      → S.get_object (S.put_object st d).1 i ≡ some e
  pub flush_keeps :
      (st : St) (e : Directory V) (i : Text)
      → S.get_object st i ≡ some e
      → S.get_object (S.flush_objects st) i ≡ some e
  -- a new store over the same files, which has none of what the old one only had in memory
  pub reopened : St → St
  pub reopened_gives :
      (st : St) (e : Directory V) (i : Text)
      → S.get_object (S.flush_objects st) i ≡ some e
      → S.get_object (reopened (S.flush_objects st)) i ≡ some e

-- the object id of an entry
abbrev pub id_in : Option (Option Text) → Text
id_in (some (some j)) = j
id_in _ = []

module _ {V St : Type 0} (S : ObjectStore V St) where
  -- every object that one store has, another one has too
  abbrev pub Keeps : St → St → Type 0
  Keeps st st' =
      (i : Text) (e : Directory V) → S.get_object st i ≡ some e → S.get_object st' i ≡ some e

  -- A stored object stands for a cached directory and the directories below it that are only in memory.
  pub data StandsFor (cache : Dict Pathname (Directory V)) (st : St)
      : Pathname → Text → Type 0 where
    stands :
        {p : Pathname} {i : Text} (d e : Directory V)
        → get p cache ≡ some d
        → S.get_object st i ≡ some e
        → e.metadata ≡ d.metadata
        → keys e.subdirs ≡ keys d.subdirs
        → ((n j : Text) → get n d.subdirs ≡ some (some j) → get n e.subdirs ≡ some (some j))
        → ((n : Text)
            → get n d.subdirs ≡ some none
            → get n e.subdirs ≡ some (some (id_in (get n e.subdirs))))
        → ((n : Text)
            → get n d.subdirs ≡ some none
            → StandsFor cache st (n ∷ p) (id_in (get n e.subdirs)))
        → StandsFor cache st p i

  pub StandsFor-Keeps :
      (cache : Dict Pathname (Directory V)) (st st' : St) (p : Pathname) (i : Text)
      → Keeps st st'
      → StandsFor cache st p i
      → StandsFor cache st' p i
  StandsFor-Keeps cache st st' p i k (stands d e c s m ks old new below) =
      stands d e c (k i e s) m ks old new
        (λ n h. StandsFor-Keeps cache st st' (n ∷ p) (id_in (get n e.subdirs)) k (below n h))

  -- The entries of cached directories that are only in memory: those directories are cached too.
  pub record Linked (cache : Dict Pathname (Directory V)) : Type 0 where
    pub mutable :
        (q : Pathname) (d : Directory V) (n : Text)
        → get q cache ≡ some d
        → get n d.subdirs ≡ some none
        → d.mutable ≡ true
    pub next :
        (q : Pathname) (d : Directory V) (n : Text)
        → get q cache ≡ some d
        → get n d.subdirs ≡ some none
        → (e : Directory V) × (get (n ∷ q) cache ≡ some e)

  -- What the loop over the entries of a directory leaves.
  record Fixed (cache : Dict Pathname (Directory V)) (p : Pathname) (names : List Text)
      (d d' : Directory V) (st st' : St) : Type 0 where
    metadata : d'.metadata ≡ d.metadata
    names_same : keys d'.subdirs ≡ keys d.subdirs
    old : (n j : Text) → get n d.subdirs ≡ some (some j) → get n d'.subdirs ≡ some (some j)
    new :
        (n : Text)
        → contains names n ≡ true
        → get n d.subdirs ≡ some none
        → (j : Text) × (get n d'.subdirs ≡ some (some j)) × StandsFor cache st' (n ∷ p) j
    keeps : Keeps st st'

  add_subdir-mutable :
      (d : Directory V) (n : Text) (o : Option Text)
      → d.mutable ≡ true
      → add_subdir d n o ≡ ok (record d { subdirs = put n o d.subdirs })
  unfolding add_subdir require_mutable
  add_subdir-mutable d n o h = ground (arith, h)

  -- what one nested call gives
  abbrev pub Stored :
      Dict Pathname (Directory V)
      → (Pathname → St → Result Error (Text × St))
      → Pathname
      → St
      → Type 0
  Stored cache fixup p st =
      (i : Text) × (st' : St) × (fixup p st ≡ ok (i, st')) × Keeps st st' × StandsFor cache st' p i

  each-steps :
      (n : Text) (rest : List Text) (d d1 : Directory V) (st st1 : St) (i : Text)
      → (fixup : Pathname → St → Result Error (Text × St)) (p : Pathname)
      → get n d.subdirs ≡ some none
      → fixup (n ∷ p) st ≡ ok (i, st1)
      → add_subdir d n (some i) ≡ ok d1
      → fixup_each S fixup p (n ∷ rest) d st ≡ fixup_each S fixup p rest d1 st1
  unfolding fixup_each get_subdir_object_id
  each-steps n rest d d1 st st1 i fixup p e r a =
      ap
        (λ (o : Option (Option Text)). elim (or_none o) as (λ x. Result Error (Directory V × St)) [
          | none ↦ fixup (n ∷ p) st >>= λ x.
              add_subdir d n (some x.0) >>= λ changed. fixup_each S fixup p rest changed x.1
          | some j ↦ fixup_each S fixup p rest d st
        ])
        e
      ∙ ap
          (λ y. y >>= λ x.
            add_subdir d n (some x.0) >>= λ changed. fixup_each S fixup p rest changed x.1)
          r
      ∙ ap (λ y. y >>= λ changed. fixup_each S fixup p rest changed st1) a

  module _ (cache : Dict Pathname (Directory V)) (fixup : Pathname → St → Result Error (Text × St))
      (p : Pathname)
      (rec : (n : Text) (e : Directory V) (st : St)
        → get (n ∷ p) cache ≡ some e
        → Stored cache fixup (n ∷ p) st) where
    fixup_each-Fixed :
        (names : List Text) (d : Directory V) (st : St)
        → All (λ n. (o : Option Text) × (get n d.subdirs ≡ some o)) names
        → ((n : Text) → get n d.subdirs ≡ some none → d.mutable ≡ true)
        → ((n : Text)
            → get n d.subdirs ≡ some none
            → (e : Directory V) × (get (n ∷ p) cache ≡ some e))
        → (d' : Directory V) × (st' : St) × (fixup_each S fixup p names d st ≡ ok (d', st'))
          × Fixed cache p names d d' st st'
    unfolding fixup_each get_subdir_object_id
    fixup_each-Fixed [] d st a m l = (
      d,
      st,
      refl,
      record {
        metadata = refl;
        names_same = refl;
        old = λ n j h. h;
        new = λ n c h. absurd (ground (arith, c));
        keeps = λ i e h. h;
      },
    )
    fixup_each-Fixed (n ∷ rest) d st ((some j, e), a) m l =
        let (d', st', r, F) = fixup_each-Fixed rest d st a m l in
        (
          d',
          st',
          ground (arith, e, r),
          record {
            metadata = F.metadata;
            names_same = F.names_same;
            old = F.old;
            new = λ k c h. elim (Bool-cases (k == n)) [
              | inr x ↦ F.new k (ground (arith, c, x)) h
              | inl x ↦ absurd (ground (arith, e, h, ap (λ y. get y d.subdirs) (eq_of_beq k n x)))
            ];
            keeps = F.keeps;
          },
        )
    fixup_each-Fixed (n ∷ rest) d st ((none, e), a) m l =
        let (c, cached) = l n e in
        let (i, st1, r1, k1, s1) = rec n c st cached in
        let d1 : Directory V = record d { subdirs = put n (some i) d.subdirs } in
        let here = get-put_self n n (some i) d.subdirs (beq_refl n) in
        let (d', st', r, F) =
          fixup_each-Fixed rest d1 st1
            (All-map (λ k. (o : Option Text) × (get k d.subdirs ≡ some o))
              (λ k. (o : Option Text) × (get k d1.subdirs ≡ some o)) rest
              (λ k. present-put n i k d.subdirs) a)
            (λ k h. m k (pending-put n k i d.subdirs h))
            (λ k h. l k (pending-put n k i d.subdirs h)) in
        (
          d',
          st',
          each-steps n rest d d1 st st1 i fixup p e r1 (add_subdir-mutable d n (some i) (m n e))
              ∙ r,
          record {
            metadata = F.metadata;
            names_same = F.names_same ∙ keys-put_present n none d.subdirs (some i) e;
            old = λ k j h. F.old k j (stored-put n k i j d.subdirs e h);
            new = λ k c h. elim (Bool-cases (k == n)) [
              | inl x ↦
                  let same = eq_of_beq k n x in
                  (
                    i,
                    F.old k i (ap (λ y. get y d1.subdirs) same ∙ here),
                    subst (λ y. StandsFor cache st' (y ∷ p) i) (sym same)
                        (StandsFor-Keeps cache st1 st' (n ∷ p) i F.keeps s1),
                  )
              | inr x ↦ F.new k (ground (arith, c, x)) (get-put_apart n k (some i) d.subdirs x ∙ h)
            ];
            keeps = λ o x h. F.keeps o x (k1 o x h);
          },
        )

  length-depth :
      (cache : Dict Pathname (Directory V)) (p : Pathname) (d : Directory V)
      → get p cache ≡ some d
      → length p + 1 ≤ depth S cache
  unfolding get
  length-depth [] p d h = absurd (ground (arith, h))
  length-depth ((q, e) ∷ cache) p d h = elim (Bool-cases (q == p)) [
    | inl c ↦ omega (arith, ap (λ (r : Pathname). length r) (eq_of_beq q p c))
    | inr c ↦ omega (arith, length-depth cache p d (ground (arith, h, c)))
  ]

  fixup-steps :
      (fuel : ℕ) (cache : Dict Pathname (Directory V)) (p : Pathname) (d d' : Directory V)
      (st st1 : St)
      → get p cache ≡ some d
      → fixup_each S (fixup_subdir_refs S fuel cache) p (keys d.subdirs) d st ≡ ok (d', st1)
      → fixup_subdir_refs S (suc fuel) cache p st ≡ ok (S.put_object st1 (set_immutable d'))
  unfolding fixup_subdir_refs
  fixup-steps fuel cache p d d' st st1 h r = ground (arith, h, r)

  pub fixup_subdir_refs-Stored :
      (fuel : ℕ) (cache : Dict Pathname (Directory V)) (p : Pathname) (d : Directory V) (st : St)
      → Keeping S
      → Linked cache
      → get p cache ≡ some d
      → depth S cache ≤ length p + fuel
      → Stored cache (fixup_subdir_refs S fuel cache) p st
  fixup_subdir_refs-Stored zero cache p d st K L h f =
      absurd (omega (arith, f, length-depth cache p d h))
  fixup_subdir_refs-Stored (suc fuel) cache p d st K L h f =
      let (d', st1, r, F) =
        fixup_each-Fixed cache (fixup_subdir_refs S fuel cache) p
          (λ n e st c. fixup_subdir_refs-Stored fuel cache (n ∷ p) e st K L c (omega (arith, f)))
          (keys d.subdirs) d st (present-keys d.subdirs) (λ n. L.mutable p d n h)
          (λ n. L.next p d n h) in
      let e = set_immutable d' in
      let put_keeps =
        λ (i : Text) (x : Directory V) (g : S.get_object st1 i ≡ some x). K.put_keeps st1 e x i g in
      let st2 = (S.put_object st1 e).1 in
      let (o, gives, same) = K.put_gives st1 e in
      let sub : o.subdirs ≡ d'.subdirs = ap (λ (x : Directory V). x.subdirs) same in
      (
        (S.put_object st1 e).0,
        st2,
        fixup-steps fuel cache p d d' st st1 h r,
        λ i x g. put_keeps i x (F.keeps i x g),
        stands d o h gives (ap (λ (x : Directory V). x.metadata) same ∙ F.metadata)
            (ap keys sub ∙ F.names_same) (λ n j g. ap (get n) sub ∙ F.old n j g)
            (λ n g.
              let (j, x, s) = F.new n (contains-keys n none d.subdirs g) g in
              let w = ap (get n) sub ∙ x in w ∙ ap (λ o. some (some (id_in o))) (sym w))
            (λ n g.
              let (j, x, s) = F.new n (contains-keys n none d.subdirs g) g in
              let w = ap (get n) sub ∙ x in
              subst (λ i. StandsFor cache st2 (n ∷ p) i) (ap id_in (sym w))
                (StandsFor-Keeps cache st1 st2 (n ∷ p) j put_keeps s)),
      )
