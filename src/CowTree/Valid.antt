-- ===== src/CowTree/Valid.antt =====
-- When a tree is well formed, and what it holds: the entries of its leaves, in order.
use obnam.Prelude.{
  ℕ, ◌≤◌, ◌≡◌, refl, Bool, true, false, Option, none, some, List, [], ◌∷◌, ◌++◌, arith, ◌⊎◌, inl,
  inr,
}
use obnam.Prelude.Tests.{if◌then◌else◌}
use obnam.Prelude.Lists.{All}
use obnam.Prelude.Keys.{Eq, Ord, ◌==◌}
use obnam.Prelude.Dict.{keys, get}
use obnam.Prelude.Sorted.{Distinct}
use obnam.CowTree.Leaf
use obnam.CowTree.Leaf.{Leaf, or_none}
use obnam.CowTree.LeafStore.{LeafStore, Laws}
use obnam.CowTree.LeafList.{LeafInfo}
use obnam.CowTree.Order.{Ordered, Above, Below}
use obnam.CowTree.Tree.{Tree, Value}

-- the first of two that is there
abbrev pub or_else : {A : Type 0} → Option A → Option A → Option A
or_else none b = b
or_else (some a) b = some a

module _ {K V I St : Type 0} ⦃ek : Eq K⦄ ⦃o : Ord K⦄ ⦃ei : Eq I⦄
    (S : LeafStore K (Value V K I) I St) where
  -- the leaf that a description names is stored, is within its range, and has at most `limit` keys
  pub record Fits (s : St) (limit : ℕ) (li : LeafInfo K I) : Type 0 where
    pub leaf : Leaf K (Value V K I)
    pub stored : S.get_leaf s li.id ≡ some leaf
    pub low : All (λ k. o.le li.first_key k ≡ true) (keys leaf)
    pub high : All (λ k. o.le k li.last_key ≡ true) (keys leaf)
    pub distinct : Distinct (keys leaf)
    pub small : Leaf.len leaf ≤ limit

  pub record IsValid (L : Laws S) (t : Tree K I St) : Type 0 where
    pub store_valid : L.IsValid t.store
    pub ordered : Ordered t.leaf_list
    pub fits : All (Fits t.store t.max_keys_per_leaf) t.leaf_list
    pub room : 2 ≤ t.max_keys_per_leaf

  abbrev pub entry : Option (Leaf K (Value V K I)) → K → Option (Option (Value V K I))
  entry none j = none
  entry (some d) j = get j d

  -- what the leaves hold under a key
  unfoldable pub flat : St → List (LeafInfo K I) → K → Option (Option (Value V K I))
  flat s [] j = none
  flat s (li ∷ rest) j = or_else (entry (S.get_leaf s li.id) j) (flat s rest j)

  pub flat-append :
      (s : St) (xs ys : List (LeafInfo K I)) (j : K)
      → flat s (xs ++ ys) j ≡ or_else (flat s xs j) (flat s ys j)
  unfolding flat
  flat-append s [] ys j = refl
  flat-append s (x ∷ xs) ys j = ground (arith, flat-append s xs ys j)

  -- a key that a dict holds is one of its keys
  get-All :
      (P : K → Type 0) (j : K) (d : Leaf K (Value V K I)) → All P (keys d) → (get j d ≡ none) ⊎ P j
  unfolding get
  get-All P j [] h = inl refl
  get-All P j ((i, w) ∷ d) h = go (i == j) refl (get-All P j d h.1)
    where
      go :
          (b : Bool)
          → (i == j) ≡ b
          → (get j d ≡ none) ⊎ P j
          → ((if (i == j) then some w else get j d) ≡ none) ⊎ P j
      go true e r = inr (rw (← (ek.beq_iff i j).0 e) h.0)
      go false e (inl n) = inl (rw e n)
      go false e (inr p) = inr p

  entry-Above :
      (s : St) (limit : ℕ) (li : LeafInfo K I) (j : K)
      → Fits s limit li
      → Above j li
      → entry (S.get_leaf s li.id) j ≡ none
  entry-Above s limit li j f a =
      ground (arith, get-All (λ k. o.le k li.last_key ≡ true) j f.leaf f.high, f.stored)

  entry-Below :
      (s : St) (limit : ℕ) (li : LeafInfo K I) (j : K)
      → Fits s limit li
      → Below j li
      → entry (S.get_leaf s li.id) j ≡ none
  entry-Below s limit li j f a =
      ground (arith, get-All (λ k. o.le li.first_key k ≡ true) j f.leaf f.low, f.stored)

  pub flat-Above :
      (s : St) (limit : ℕ) (xs : List (LeafInfo K I)) (j : K)
      → All (Fits s limit) xs
      → All (Above j) xs
      → flat s xs j ≡ none
  unfolding flat
  flat-Above s limit [] j f a = refl
  flat-Above s limit (x ∷ xs) j f a =
      rw (entry-Above s limit x j f.0 a.0) (flat-Above s limit xs j f.1 a.1)

  pub flat-Below :
      (s : St) (limit : ℕ) (xs : List (LeafInfo K I)) (j : K)
      → All (Fits s limit) xs
      → All (Below j) xs
      → flat s xs j ≡ none
  unfolding flat
  flat-Below s limit [] j f a = refl
  flat-Below s limit (x ∷ xs) j f a =
      rw (entry-Below s limit x j f.0 a.0) (flat-Below s limit xs j f.1 a.1)
