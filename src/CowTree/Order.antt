-- ===== src/CowTree/Order.antt =====
-- Leaf lists whose leaves hold disjoint, ascending ranges of keys: what the list operations do there.
use obnam.Prelude.{
  ◌≡◌, refl, ap, subst, true, false, Option, some, List, [], ◌∷◌, ◌++◌, arith, inl, inr,
}
use obnam.Prelude.Tests.{if◌then◌else◌, Bool-cases}
use obnam.Prelude.Lists.{All, All-head, All-append_left, All-append_right}
use obnam.Prelude.Keys.{Eq, Ord, ◌==◌}
use obnam.Prelude.Result.{Result, ok}
use obnam.CowTree.LeafList.{Error, LeafInfo, last, first_reaching, find_leaf_for_key}

module _ {K I : Type 0} ⦃o : Ord K⦄ ⦃ei : Eq I⦄ where
  -- every key of the first leaf is below every key of the second, and they are two leaves
  abbrev pub Before : LeafInfo K I → LeafInfo K I → Type 0
  Before li lj = (o.le lj.first_key li.last_key ≡ false) × ((li.id == lj.id) ≡ false)

  abbrev pub IsRange : LeafInfo K I → Type 0
  IsRange li = o.le li.first_key li.last_key ≡ true

  abbrev pub Ordered : List (LeafInfo K I) → Type 0
  Ordered [] = Unit
  Ordered (li ∷ rest) = (IsRange li × All (Before li) rest) × Ordered rest

  -- every leaf of the first list is before every leaf of the second
  abbrev pub AllBefore : List (LeafInfo K I) → List (LeafInfo K I) → Type 0
  AllBefore xs ys = All (λ x. All (Before x) ys) xs

  pub Ordered-append :
      (xs ys : List (LeafInfo K I)) → Ordered xs → Ordered ys → AllBefore xs ys → Ordered (xs ++ ys)
  Ordered-append [] ys hx hy b = hy
  Ordered-append (x ∷ xs) ys hx hy b = ((hx.0.0, go xs hx.0.1), Ordered-append xs ys hx.1 hy b.1)
    where
      go : (zs : List (LeafInfo K I)) → All (Before x) zs → All (Before x) (zs ++ ys)
      go [] h = b.0
      go (z ∷ zs) h = (h.0, go zs h.1)

  pub Ordered-left : (xs ys : List (LeafInfo K I)) → Ordered (xs ++ ys) → Ordered xs
  Ordered-left [] ys h = tt
  Ordered-left (x ∷ xs) ys h =
      ((h.0.0, All-append_left (Before x) xs ys h.0.1), Ordered-left xs ys h.1)

  pub Ordered-right : (xs ys : List (LeafInfo K I)) → Ordered (xs ++ ys) → Ordered ys
  Ordered-right [] ys h = h
  Ordered-right (x ∷ xs) ys h = Ordered-right xs ys h.1

  pub Ordered-AllBefore : (xs ys : List (LeafInfo K I)) → Ordered (xs ++ ys) → AllBefore xs ys
  Ordered-AllBefore [] ys h = tt
  Ordered-AllBefore (x ∷ xs) ys h =
      (All-append_right (Before x) xs ys h.0.1, Ordered-AllBefore xs ys h.1)

  pub AllBefore-tail :
      (xs ys : List (LeafInfo K I)) (y : LeafInfo K I) → AllBefore xs (y ∷ ys) → AllBefore xs ys
  AllBefore-tail [] ys y b = tt
  AllBefore-tail (x ∷ xs) ys y b = (b.0.1, AllBefore-tail xs ys y b.1)

  -- `key` is above the leaf's range
  abbrev pub Above : K → LeafInfo K I → Type 0
  Above key li = o.le key li.last_key ≡ false

  -- `key` is below the leaf's range
  abbrev pub Below : K → LeafInfo K I → Type 0
  Below key li = o.le li.first_key key ≡ false

  -- The leaf that a search returned is where `key` belongs: above all of `pre`, below all of `post`.
  pub record Located (key : K) (infos : List (LeafInfo K I)) (result : Result Error (Option I))
      : Type 0 where
    pub pre : List (LeafInfo K I)
    pub leaf : LeafInfo K I
    pub post : List (LeafInfo K I)
    pub split : infos ≡ pre ++ leaf ∷ post
    pub found : result ≡ ok (some leaf.id)
    pub above : All (Above key) pre
    pub below : All (Below key) post

  Below-of_le :
      (key : K) (li : LeafInfo K I) (rest : List (LeafInfo K I))
      → o.le key li.last_key ≡ true
      → All (Before li) rest
      → All (Below key) rest
  Below-of_le key li [] h b = tt
  Below-of_le key li (lj ∷ rest) h b = (
    ground (arith, o.le_trans lj.first_key key li.last_key, b.0.0),
    Below-of_le key li rest h b.1,
  )

  scan :
      (key : K) (infos : List (LeafInfo K I)) (li : LeafInfo K I)
      → Ordered infos
      → last infos ≡ some li
      → o.le key li.last_key ≡ true
      → Located key infos (first_reaching key infos)
  unfolding first_reaching
  scan key [] li h e le = ground arith
  scan key (x ∷ []) li h e le = record {
    pre = [];
    leaf = x;
    post = [];
    split = refl;
    found = ground (arith, e);
    above = tt;
    below = tt;
  }
  scan key (x ∷ y ∷ rest) li h e le = elim (Bool-cases (o.le key x.last_key)) [
    | inl c ↦ record {
      pre = [];
      leaf = x;
      post = y ∷ rest;
      split = refl;
      found = rw c;
      above = tt;
      below = Below-of_le key x (y ∷ rest) c h.0.1;
    }
    | inr c ↦
        let r = scan key (y ∷ rest) li h.1 e le in
        record {
          pre = x ∷ r.pre;
          leaf = r.leaf;
          post = r.post;
          split = ap (◌∷◌ x) r.split;
          found = rw c r.found;
          above = (c, r.above);
          below = r.below;
        }
  ]

  Above-of_Before :
      (key : K) (xs : List (LeafInfo K I)) (li : LeafInfo K I)
      → o.le li.last_key key ≡ true
      → IsRange li
      → All (λ x. Before x li) xs
      → All (Above key) xs
  Above-of_Before key [] li h r b = tt
  Above-of_Before key (x ∷ xs) li h r b = (
    ground (
      arith,
      o.le_trans li.first_key li.last_key key,
      o.le_trans li.first_key key x.last_key,
      b.0.0,
    ),
    Above-of_Before key xs li h r b.1,
  )

  -- the last leaf, with what stands before it
  pub record Last (infos : List (LeafInfo K I)) (li : LeafInfo K I) : Type 0 where
    pub pre : List (LeafInfo K I)
    pub split : infos ≡ pre ++ li ∷ []
    pub before : All (λ x. Before x li) pre
    pub range : IsRange li

  last_leaf :
      (infos : List (LeafInfo K I)) (li : LeafInfo K I)
      → Ordered infos
      → last infos ≡ some li
      → Last infos li
  last_leaf [] li h e = ground arith
  last_leaf (x ∷ []) li h e =
      let q : x ≡ li = cc in
      record { pre = []; split = ap (λ y. y ∷ []) q; before = tt; range = subst IsRange q h.0.0 }
  last_leaf (x ∷ y ∷ rest) li h e =
      let r = last_leaf (y ∷ rest) li h.1 e in
      record {
        pre = x ∷ r.pre;
        split = ap (◌∷◌ x) r.split;
        before = (
          All-head (Before x) li []
              (All-append_right (Before x) r.pre (li ∷ []) (subst (All (Before x)) r.split h.0.1)),
          r.before,
        );
        range = r.range;
      }

  last-some :
      (x : LeafInfo K I) (xs : List (LeafInfo K I))
      → (li : LeafInfo K I) × (last (x ∷ xs) ≡ some li)
  last-some x [] = (x, refl)
  last-some x (y ∷ ys) = last-some y ys

  find_leaf_for_key-last :
      (key : K) (infos : List (LeafInfo K I)) (li : LeafInfo K I)
      → last infos ≡ some li
      → find_leaf_for_key key infos
        ≡ (if o.le li.last_key key then ok (some li.id) else first_reaching key infos)
  unfolding find_leaf_for_key
  find_leaf_for_key-last key infos li e = rw (e, find_leaf_for_key)

  -- In an ordered list that is not empty, the search finds the leaf where the key belongs.
  pub find_leaf_for_key-Located :
      (key : K) (x : LeafInfo K I) (xs : List (LeafInfo K I))
      → Ordered (x ∷ xs)
      → Located key (x ∷ xs) (find_leaf_for_key key (x ∷ xs))
  find_leaf_for_key-Located key x xs h =
      let (li, e) = last-some x xs in
      elim (Bool-cases (o.le li.last_key key)) [
        | inl c ↦
            let r = last_leaf (x ∷ xs) li h e in
            record {
              pre = r.pre;
              leaf = li;
              post = [];
              split = r.split;
              found = rw (find_leaf_for_key-last key (x ∷ xs) li e, c);
              above = Above-of_Before key r.pre li c r.range r.before;
              below = tt;
            }
        | inr c ↦
            let r = scan key (x ∷ xs) li h e (o.le_total li.last_key key c) in
            record {
              pre = r.pre;
              leaf = r.leaf;
              post = r.post;
              split = r.split;
              found = rw (find_leaf_for_key-last key (x ∷ xs) li e, c) r.found;
              above = r.above;
              below = r.below;
            }
      ]
