-- ===== src/CowTree/Middle.antt =====
-- An insert replaces the leaf in the middle of the list: what the rest of the tree keeps, and what
-- the new tree then holds.
use obnam.Prelude.{ℕ, ◌≡◌, refl, ◌∙◌, Option, some, List, [], ◌∷◌, ◌++◌, arith}
use obnam.Prelude.Tests.{if◌then◌else◌}
use obnam.Prelude.Lists.{All, All-append}
use obnam.Prelude.Keys.{Eq, Ord, ◌==◌}
use obnam.CowTree.LeafStore.{LeafStore}
use obnam.CowTree.LeafList.{LeafInfo}
use obnam.CowTree.Order.{Before, Ordered, AllBefore, Ordered-append, Above}
use obnam.CowTree.Tree.{Value}
use obnam.CowTree.Valid.{Fits, entry, flat, flat-append, flat-Above}

module _ {K V I St : Type 0} ⦃ek : Eq K⦄ ⦃o : Ord K⦄ ⦃ei : Eq I⦄
    (S : LeafStore K (Value V K I) I St) where
  -- the leaves of a list read the same in two states of the store
  abbrev pub SameLeaves : St → St → List (LeafInfo K I) → Type 0
  SameLeaves s s' xs = All (λ x. S.get_leaf s' x.id ≡ S.get_leaf s x.id) xs

  pub Fits-SameLeaves :
      (s s' : St) (limit : ℕ) (xs : List (LeafInfo K I))
      → SameLeaves s s' xs
      → All (Fits S s limit) xs
      → All (Fits S s' limit) xs
  Fits-SameLeaves s s' limit [] h f = tt
  Fits-SameLeaves s s' limit (x ∷ xs) h f = (
    record {
      leaf = f.0.leaf;
      stored = h.0 ∙ f.0.stored;
      low = f.0.low;
      high = f.0.high;
      distinct = f.0.distinct;
      small = f.0.small;
    },
    Fits-SameLeaves s s' limit xs h.1 f.1,
  )

  pub flat-SameLeaves :
      (s s' : St) (xs : List (LeafInfo K I)) (j : K)
      → SameLeaves s s' xs
      → flat S s' xs j ≡ flat S s xs j
  unfolding flat
  flat-SameLeaves s s' [] j h = refl
  flat-SameLeaves s s' (x ∷ xs) j h = rw (h.0, flat-SameLeaves s s' xs j h.1)

  pub SameLeaves-trans :
      (s s' s'' : St) (xs : List (LeafInfo K I))
      → SameLeaves s s' xs
      → SameLeaves s' s'' xs
      → SameLeaves s s'' xs
  SameLeaves-trans s s' s'' [] h g = tt
  SameLeaves-trans s s' s'' (x ∷ xs) h g = (g.0 ∙ h.0, SameLeaves-trans s s' s'' xs h.1 g.1)

  -- The keys of the new leaves lie between the old ones, and their identifiers are others.
  pub record Between (pre mid post : List (LeafInfo K I)) : Type 0 where
    pub ordered : Ordered mid
    pub above : AllBefore pre mid
    pub below : AllBefore mid post

  AllBefore-append :
      (pre mid post : List (LeafInfo K I))
      → AllBefore pre mid
      → AllBefore pre post
      → AllBefore pre (mid ++ post)
  AllBefore-append [] mid post h g = tt
  AllBefore-append (p ∷ pre) mid post h g =
      (All-append (Before p) mid post h.0 g.0, AllBefore-append pre mid post h.1 g.1)

  pub Ordered-Between :
      (pre mid post : List (LeafInfo K I))
      → Ordered pre
      → Ordered post
      → AllBefore pre post
      → Between pre mid post
      → Ordered (pre ++ (mid ++ post))
  Ordered-Between pre mid post hp hq b m =
      Ordered-append pre (mid ++ post) hp (Ordered-append mid post m.ordered hq m.below)
        (AllBefore-append pre mid post m.above b)

  -- the old leaf gives way to new ones, in a new state of the store
  pub record Replaced (key : K) (v : Option (Value V K I)) (s s' : St) (limit : ℕ)
      (pre : List (LeafInfo K I)) (li : LeafInfo K I) (mid post : List (LeafInfo K I))
      : Type 0 where
    pub same_pre : SameLeaves s s' pre
    pub same_post : SameLeaves s s' post
    pub fits : All (Fits S s' limit) mid
    pub between : Between pre mid post
    pub holds :
        (j : K) → flat S s' mid j ≡ (if key == j then some v else entry S (S.get_leaf s li.id) j)

  -- The replacement changes what the tree holds at `key` alone.
  pub flat-Replaced :
      (key : K) (v : Option (Value V K I)) (s s' : St) (limit : ℕ) (pre : List (LeafInfo K I))
      (li : LeafInfo K I) (mid post : List (LeafInfo K I))
      → All (Fits S s limit) pre
      → All (Above key) pre
      → Replaced key v s s' limit pre li mid post
      → (j : K)
      → flat S s' (pre ++ (mid ++ post)) j
        ≡ (if key == j then some v else flat S s (pre ++ li ∷ post) j)
  unfolding flat
  flat-Replaced key v s s' limit pre li mid post fp ap_ r j = ground (
    arith,
    flat-append S s' pre (mid ++ post) j,
    flat-append S s' mid post j,
    flat-append S s pre (li ∷ post) j,
    flat-SameLeaves s s' pre j r.same_pre,
    flat-SameLeaves s s' post j r.same_post,
    r.holds j,
    flat-Above S s limit pre key fp ap_,
    ek.beq_iff key j,
  )
