-- ===== src/CowTree/InsertSplit.antt =====
-- An insert into a full leaf: the leaf is split in two new ones.
use mathlib.Core.List.{append_assoc}
use obnam.Prelude.{
  ℕ, ◌/◌, ◌≤◌, ◌<◌, ◌≡◌, refl, sym, ap, subst, ◌∙◌, true, false, Option, some, List, [], ◌∷◌, ◌++◌,
  arith,
}
use obnam.Prelude.Tests.{if◌then◌else◌}
use obnam.Prelude.Lists.{
  length, take, drop, take-append-drop, length-take, length-drop, All, All-append, All-map₂,
}
use obnam.Prelude.Keys.{Eq, Ord, ◌==◌, beq_of_ne, contains}
use obnam.Prelude.Dict.{keys, get}
use obnam.Prelude.Result.{ok}
use obnam.Prelude.Sorted.{contains-append, contains-sorted}
use obnam.CowTree.Leaf
use obnam.CowTree.Leaf.{Leaf}
use obnam.CowTree.LeafStore.{LeafStore, Laws}
use obnam.CowTree.LeafList.{LeafInfo, insert_leaf}
use obnam.CowTree.Order.{Before, Ordered, AllBefore, Ordered-append, Above, Below}
use obnam.CowTree.Edits.{insert_leaf-between}
use obnam.CowTree.Ends.{Ends, All-take, All-drop, take-Ascending, drop-Ascending, take-lt-drop}
use obnam.CowTree.Tree.{Value, split_leaf}
use obnam.CowTree.Valid.{Fits, flat, entry}
use obnam.CowTree.Middle.{
  Between, Ordered-Between, Replaced, SameLeaves, SameLeaves-trans, Fits-SameLeaves,
}
use obnam.CowTree.Stores.{
  beq_symm, update-SameLeaves, fresh_ids, put_leaf-SameLeaves, get_leaf-put_leaf_self, ids_above,
  ids_below,
}
use obnam.CowTree.InsertOne.{
  Site, ends_of_nonempty, inserted, inserted_keys, Inside, inserted-Inside, inserted-Ascending,
  length-inserted_keys, updated_store, AllBefore-of,
}

module _ {K V I St : Type 0} ⦃ek : Eq K⦄ ⦃o : Ord K⦄ ⦃ei : Eq I⦄
    (S : LeafStore K (Value V K I) I St) (L : Laws S) (s : St) (limit : ℕ) (key : K)
    (v : Option (Value V K I)) (pre : List (LeafInfo K I)) (li : LeafInfo K I)
    (post : List (LeafInfo K I)) (site : Site S L s limit key pre li post) (room : 2 ≤ limit)
    (full : limit < Leaf.len (inserted S L s limit key v pre li post site)) where
  abbrev pub whole : Leaf K (Value V K I)
  whole = inserted S L s limit key v pre li post site

  abbrev pub all_keys : List K
  all_keys = inserted_keys S L s limit key v pre li post site

  abbrev pub left_keys : List K
  left_keys = take (length all_keys / 2) all_keys

  abbrev pub right_keys : List K
  right_keys = drop (length all_keys / 2) all_keys

  abbrev pub left : Leaf K (Value V K I)
  left = Leaf.copy_keys left_keys whole []

  abbrev pub right : Leaf K (Value V K I)
  right = Leaf.copy_keys right_keys whole []

  -- the store after the insert into the old leaf, after the left leaf, and after the right one
  abbrev pub s1 : St
  s1 = updated_store S L s limit key v pre li post site

  abbrev pub s2 : St
  s2 = (S.put_leaf s1 left).1

  abbrev pub s3 : St
  s3 = (S.put_leaf s2 right).1

  abbrev pub left_id : I
  left_id = (S.put_leaf s1 left).0

  abbrev pub right_id : I
  right_id = (S.put_leaf s2 right).0

  sizes :
      (1 ≤ length left_keys)
      × (length left_keys ≤ limit)
      × (1 ≤ length right_keys)
      × (length right_keys ≤ limit)
  sizes =
      let n = length all_keys / 2 in
      omega (
        arith,
        length-take n all_keys,
        length-drop n all_keys,
        length-inserted_keys S L s limit key v pre li post site,
        Leaf.len-insert-le key v site.fits.leaf,
        site.fits.small,
      )

  pub left-Ends : Ends left_keys
  left-Ends = ends_of_nonempty left_keys sizes.0 (
      take-Ascending (length all_keys / 2) all_keys
        (inserted-Ascending S L s limit key v pre li post site))

  pub right-Ends : Ends right_keys
  right-Ends = ends_of_nonempty right_keys sizes.2 (
      drop-Ascending (length all_keys / 2) all_keys
        (inserted-Ascending S L s limit key v pre li post site))

  abbrev pub left_info : LeafInfo K I
  left_info = record { first_key = left-Ends.first; last_key = left-Ends.last_one; id = left_id }

  abbrev pub right_info : LeafInfo K I
  right_info = record {
    first_key = right-Ends.first;
    last_key = right-Ends.last_one;
    id = right_id;
  }

  valid1 : L.IsValid s1
  valid1 = L.update-IsValid s li.id site.fits.leaf whole site.fits.stored site.store_valid

  valid2 : L.IsValid s2
  valid2 = L.put_leaf-IsValid s1 left valid1

  pub valid3 : L.IsValid s3
  valid3 = L.put_leaf-IsValid s2 right valid2

  pub left_ne_right : (left_id == right_id) ≡ false
  left_ne_right =
      beq_of_ne left_id right_id
        (λ e. cc (e, get_leaf-put_leaf_self S L s1 left valid1, L.fresh s2 right valid2))

  -- what becomes of the other leaves
  pub record Others (xs : List (LeafInfo K I)) : Type 0 where
    pub same : SameLeaves S s s3 xs
    pub not_left : All (λ x. (x.id == left_id) ≡ false) xs
    pub not_right : All (λ x. (x.id == right_id) ≡ false) xs

  Others-of :
      (xs : List (LeafInfo K I))
      → All (Fits S s limit) xs
      → All (λ x. (x.id == li.id) ≡ false) xs
      → Others xs
  Others-of xs f ne =
      let e1 =
        update-SameLeaves S L s li.id site.fits.leaf whole xs site.store_valid site.fits.stored
          ne in
      let f1 = Fits-SameLeaves S s s1 limit xs e1 f in
      let n1 = fresh_ids S L s1 left limit xs valid1 f1 in
      let e2 = put_leaf-SameLeaves S L s1 left xs valid1 n1 in
      let f2 = Fits-SameLeaves S s1 s2 limit xs e2 f1 in
      let n2 = fresh_ids S L s2 right limit xs valid2 f2 in
      let e3 = put_leaf-SameLeaves S L s2 right xs valid2 n2 in
      record {
        same = SameLeaves-trans S s s2 s3 xs (SameLeaves-trans S s s1 s2 xs e1 e2) e3;
        not_left = n1;
        not_right = n2;
      }

  pub Others-pre : Others pre
  Others-pre = Others-of pre site.fits_pre (ids_above S L pre post li site.before)

  pub Others-post : Others post
  Others-post = Others-of post site.fits_post (ids_below S L post li site.after)

  left_stored : S.get_leaf s3 left_id ≡ some left
  left_stored =
      rw (L.get_leaf-put_leaf s2 right left_id valid2, beq_symm S L left_id right_id left_ne_right)
        (get_leaf-put_leaf_self S L s1 left valid1)

  right_stored : S.get_leaf s3 right_id ≡ some right
  right_stored = get_leaf-put_leaf_self S L s2 right valid2

  -- a leaf made from some of the keys
  part-Fits :
      (ks : List K) (d : Leaf K (Value V K I)) (i : I) (en : Ends ks)
      → d ≡ Leaf.copy_keys ks whole []
      → S.get_leaf s3 i ≡ some d
      → length ks ≤ limit
      → Fits S s3 limit (record { first_key = en.first; last_key = en.last_one; id = i })
  part-Fits ks d i en e st small = record {
    leaf = Leaf.copy_keys ks whole [];
    stored = st ∙ ap some e;
    low = Leaf.All-keys-copy_keys (λ x. o.le en.first x ≡ true) ks whole [] en.low tt;
    high = Leaf.All-keys-copy_keys (λ x. o.le x en.last_one ≡ true) ks whole [] en.high tt;
    distinct = Leaf.copy_keys-Distinct ks whole [] tt;
    small = omega (arith, Leaf.len-copy_keys-le ks whole []);
  }

  pub parts_hold :
      (j : K)
      → flat S s3 (left_info ∷ right_info ∷ []) j
        ≡ (if key == j then some v else entry S (S.get_leaf s li.id) j)
  unfolding flat get
  parts_hold j =
      let n = length all_keys / 2 in
      let e : contains (left_keys ++ right_keys) j ≡ contains (keys whole) j =
        rw (take-append-drop n all_keys) (contains-sorted (keys whole) j) in
      ground (
        arith,
        e,
        contains-append left_keys right_keys j,
        left_stored,
        right_stored,
        site.fits.stored,
        Leaf.get-copy_keys left_keys whole [] j,
        Leaf.get-copy_keys right_keys whole [] j,
        Leaf.contains-keys whole j,
        Leaf.get-insert key j v site.fits.leaf,
      )

  pub parts-Fit : All (Fits S s3 limit) (left_info ∷ right_info ∷ [])
  parts-Fit = (
    part-Fits left_keys left left_id left-Ends refl left_stored sizes.1,
    (part-Fits right_keys right right_id right-Ends refl right_stored sizes.3, tt),
  )

  Inside-left :
      Inside S L s limit key v pre li post site left-Ends.first
      × Inside S L s limit key v pre li post site left-Ends.last_one
  Inside-left = left-Ends.member (Inside S L s limit key v pre li post site) (
      All-take (Inside S L s limit key v pre li post site) (length all_keys / 2) all_keys
        (inserted-Inside S L s limit key v pre li post site))

  Inside-right :
      Inside S L s limit key v pre li post site right-Ends.first
      × Inside S L s limit key v pre li post site right-Ends.last_one
  Inside-right = right-Ends.member (Inside S L s limit key v pre li post site) (
      All-drop (Inside S L s limit key v pre li post site) (length all_keys / 2) all_keys
        (inserted-Inside S L s limit key v pre li post site))

  left_lt_right : o.le right-Ends.first left-Ends.last_one ≡ false
  left_lt_right =
      (right-Ends.member (λ y. o.le y left-Ends.last_one ≡ false)
        (left-Ends.member (λ x. All (λ y. o.le y x ≡ false) right_keys)
          (take-lt-drop (length all_keys / 2) all_keys
            (inserted-Ascending S L s limit key v pre li post site))).1).0

  pair_above :
      (xs : List (LeafInfo K I))
      → AllBefore xs (left_info ∷ [])
      → AllBefore xs (right_info ∷ [])
      → AllBefore xs (left_info ∷ right_info ∷ [])
  pair_above [] a b = tt
  pair_above (x ∷ xs) a b = ((a.0.0, b.0), pair_above xs a.1 b.1)

  Before-post :
      (m : LeafInfo K I)
      → All (Below m.last_key) post
      → All (λ x. (x.id == m.id) ≡ false) post
      → All (Before m) post
  Before-post m b n =
      All-map₂ (Below m.last_key) (λ x. (x.id == m.id) ≡ false) (Before m) post
        (λ x c d. (c, beq_symm S L x.id m.id d)) b n

  pub parts-Between : Between S pre (left_info ∷ right_info ∷ []) post
  parts-Between = record {
    ordered = (
      (
        (left-Ends.member (λ x. o.le left-Ends.first x ≡ true) left-Ends.low).1,
        ((left_lt_right, left_ne_right), tt),
      ),
      (((right-Ends.member (λ x. o.le right-Ends.first x ≡ true) right-Ends.low).1, tt), tt),
    );
    above =
        pair_above pre
          (AllBefore-of S L s limit key v pre li post site left_info pre Inside-left.0.0
            Others-pre.not_left)
          (AllBefore-of S L s limit key v pre li post site right_info pre Inside-right.0.0
            Others-pre.not_right);
    below = (
      Before-post left_info Inside-left.1.1 Others-post.not_left,
      (Before-post right_info Inside-right.1.1 Others-post.not_right, tt),
    );
  }

  pub insert_two : Replaced S key v s s3 limit pre li (left_info ∷ right_info ∷ []) post
  insert_two = record {
    same_pre = Others-pre.same;
    same_post = Others-post.same;
    fits = parts-Fit;
    between = parts-Between;
    holds = parts_hold;
  }

  insert_left :
      Ordered (pre ++ post)
      → insert_leaf left-Ends.first left-Ends.last_one left_id (pre ++ post)
        ≡ pre ++ left_info ∷ post
  insert_left h =
      insert_leaf-between left-Ends.first left-Ends.last_one left_id pre post h Inside-left.0.0
        Inside-left.0.1

  Ordered-left : Ordered pre → Ordered post → AllBefore pre post → Ordered (pre ++ left_info ∷ post)
  Ordered-left hp hq b = Ordered-Between S pre (left_info ∷ []) post hp hq b (record {
    ordered = ((parts-Between.ordered.0.0, tt), tt);
    above =
        AllBefore-of S L s limit key v pre li post site left_info pre Inside-left.0.0
          Others-pre.not_left;
    below = (Before-post left_info Inside-left.1.1 Others-post.not_left, tt);
  })

  Above-pre_left : All (Above right-Ends.first) (pre ++ left_info ∷ [])
  Above-pre_left =
      All-append (Above right-Ends.first) pre (left_info ∷ []) Inside-right.0.0 (left_lt_right, tt)

  insert_right :
      Ordered (pre ++ left_info ∷ post)
      → insert_leaf right-Ends.first right-Ends.last_one right_id (pre ++ left_info ∷ post)
        ≡ pre ++ left_info ∷ right_info ∷ post
  insert_right h =
      let e = append_assoc pre (left_info ∷ []) post in
      let r =
        insert_leaf-between right-Ends.first right-Ends.last_one right_id (pre ++ left_info ∷ [])
          post (subst Ordered (sym e) h) Above-pre_left Inside-right.0.1 in
      ap (insert_leaf right-Ends.first right-Ends.last_one right_id) (sym e)
      ∙ r
      ∙ append_assoc pre (left_info ∷ []) (right_info ∷ post)

  -- `_split_leaf` puts the two halves where the dropped leaf was.
  pub split_leaf_lem :
      Ordered pre
      → Ordered post
      → AllBefore pre post
      → split_leaf S whole
          (record { store = s1; leaf_list = pre ++ post; max_keys_per_leaf = limit })
        ≡ ok (record {
          store = s3;
          leaf_list = pre ++ left_info ∷ right_info ∷ post;
          max_keys_per_leaf = limit;
        })
  unfolding split_leaf
  split_leaf_lem hp hq b = rw (
    left-Ends.eq,
    insert_left (Ordered-append pre post hp hq b),
    right-Ends.eq,
    insert_right (Ordered-left hp hq b),
  )
