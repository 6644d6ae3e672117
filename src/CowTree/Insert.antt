-- ===== src/CowTree/Insert.antt =====
-- `CowTree.insert` on a well formed tree: it returns a well formed tree that differs at one key.
use obnam.Prelude.{ℕ, ◌≤◌, ◌<◌, ◌≡◌, refl, ap, ◌∙◌, false, Option, some, List, [], ◌∷◌, ◌++◌, arith}
use obnam.Prelude.Tests.{if◌then◌else◌, ltb, lt→ltb}
use obnam.Prelude.Lists.{All, All-append, All-append_left, All-append_right}
use obnam.Prelude.Keys.{Eq, Ord, ◌==◌}
use obnam.Prelude.Result.{Result, ok}
use obnam.CowTree.Leaf
use obnam.CowTree.Leaf.{Leaf}
use obnam.CowTree.LeafStore.{LeafStore, Laws}
use obnam.CowTree.LeafList.{Error, LeafInfo, update_leaf, drop_leaf}
use obnam.CowTree.Order.{
  Ordered, Ordered-left, Ordered-right, Ordered-AllBefore, AllBefore-tail, Above, Below,
}
use obnam.CowTree.Edits.{update_leaf-middle, drop_leaf-middle}
use obnam.CowTree.Tree.{Tree, Value, tree_of, after_leaf_insert}
use obnam.CowTree.Valid.{Fits, IsValid, flat}
use obnam.CowTree.Middle.{Replaced, Ordered-Between, Fits-SameLeaves, flat-Replaced}
use obnam.CowTree.Stores.{ids_above, ids_below}
use obnam.CowTree.InsertOne.{Site, inserted, inserted-Ends, new_info, insert_one}
use obnam.CowTree.InsertSplit
use obnam.CowTree.InsertSplit.{insert_two, split_leaf_lem}

module _ {K V I St : Type 0} ⦃ek : Eq K⦄ ⦃o : Ord K⦄ ⦃ei : Eq I⦄
    (S : LeafStore K (Value V K I) I St) (L : Laws S) where
  -- what an insert returns: a well formed tree, with one entry changed
  pub record Inserted (t : Tree K I St) (key : K) (v : Option (Value V K I))
      (result : Result Error (Tree K I St)) : Type 0 where
    pub after : Tree K I St
    pub returns : result ≡ ok after
    pub valid : IsValid S L after
    pub capacity : after.max_keys_per_leaf ≡ t.max_keys_per_leaf
    pub holds :
        (j : K)
        → flat S after.store after.leaf_list j
          ≡ (if key == j then some v else flat S t.store t.leaf_list j)

  -- a tree whose leaf in the middle was replaced
  pub Replaced-IsValid :
      (s s' : St) (limit : ℕ) (key : K) (v : Option (Value V K I)) (pre : List (LeafInfo K I))
      (li : LeafInfo K I) (mid post : List (LeafInfo K I))
      → 2 ≤ limit
      → L.IsValid s'
      → Ordered (pre ++ li ∷ post)
      → All (Fits S s limit) (pre ++ li ∷ post)
      → Replaced S key v s s' limit pre li mid post
      → IsValid S L
          (record { store = s'; leaf_list = pre ++ (mid ++ post); max_keys_per_leaf = limit })
  Replaced-IsValid s s' limit key v pre li mid post room hv h f r =
      let fr = All-append_right (Fits S s limit) pre (li ∷ post) f in
      let hr = Ordered-right pre (li ∷ post) h in
      record {
        store_valid = hv;
        ordered =
            Ordered-Between S pre mid post (Ordered-left pre (li ∷ post) h) hr.1
              (AllBefore-tail pre post li (Ordered-AllBefore pre (li ∷ post) h)) r.between;
        fits =
            All-append (Fits S s' limit) pre (mid ++ post)
              (Fits-SameLeaves S s s' limit pre r.same_pre
                (All-append_left (Fits S s limit) pre (li ∷ post) f))
              (All-append (Fits S s' limit) mid post r.fits
                (Fits-SameLeaves S s s' limit post r.same_post fr.1));
        room = room;
      }

  module _ (s : St) (limit : ℕ) (key : K) (v : Option (Value V K I)) (pre : List (LeafInfo K I))
      (li : LeafInfo K I) (post : List (LeafInfo K I)) where
    pub Site-of :
        IsValid S L (tree_of s limit (pre ++ li ∷ post))
        → All (Above key) pre
        → All (Below key) post
        → Site S L s limit key pre li post
    Site-of h a b =
        let f = All-append_right (Fits S s limit) pre (li ∷ post) h.fits in
        record {
          store_valid = h.store_valid;
          fits_pre = All-append_left (Fits S s limit) pre (li ∷ post) h.fits;
          fits = f.0;
          fits_post = f.1;
          before = Ordered-AllBefore pre (li ∷ post) h.ordered;
          after = (Ordered-right pre (li ∷ post) h.ordered).0.1;
          above = a;
          below = b;
        }

    module _ (h : IsValid S L (tree_of s limit (pre ++ li ∷ post)))
        (site : Site S L s limit key pre li post) where
      abbrev leaf : Leaf K (Value V K I)
      leaf = inserted S L s limit key v pre li post site

      abbrev info : LeafInfo K I
      info = new_info S L s limit key v pre li post site

      abbrev updated : List (LeafInfo K I)
      updated = update_leaf li.id info.first_key info.last_key (pre ++ li ∷ post)

      updated_lem : updated ≡ pre ++ info ∷ post
      updated_lem =
          update_leaf-middle li info.first_key info.last_key pre post
            (ids_above S L pre post li site.before) (ids_below S L post li site.after)

      dropped_lem : drop_leaf li.id updated ≡ pre ++ post
      dropped_lem =
          ap (drop_leaf li.id) updated_lem
          ∙ drop_leaf-middle info pre post (ids_above S L pre post li site.before)
              (ids_below S L post li site.after)

      pub insert_small :
          ltb limit (Leaf.len leaf) ≡ false
          → Inserted (tree_of s limit (pre ++ li ∷ post)) key v (
              after_leaf_insert S li.id leaf
                (tree_of (S.update s li.id leaf) limit (pre ++ li ∷ post)))
      unfolding after_leaf_insert
      insert_small small =
          let r = insert_one S L s limit key v pre li post site (ground arith) in
          record {
            after = tree_of (S.update s li.id leaf) limit (pre ++ info ∷ post);
            returns =
                rw ((inserted-Ends S L s limit key v pre li post site).eq, updated_lem, small);
            valid =
                Replaced-IsValid s (S.update s li.id leaf) limit key v pre li (info ∷ []) post
                  h.room
                  (L.update-IsValid s li.id site.fits.leaf leaf site.fits.stored site.store_valid)
                  h.ordered h.fits r;
            capacity = refl;
            holds =
                flat-Replaced S key v s (S.update s li.id leaf) limit pre li (info ∷ []) post
                  site.fits_pre site.above r;
          }

      after_full :
          (full : limit < Leaf.len leaf)
          → after_leaf_insert S li.id leaf
              (tree_of (S.update s li.id leaf) limit (pre ++ li ∷ post))
            ≡ ok (
                tree_of (InsertSplit.s3 S L s limit key v pre li post site h.room full) limit (
                  pre
                  ++ InsertSplit.left_info S L s limit key v pre li post site h.room full
                    ∷ InsertSplit.right_info S L s limit key v pre li post site h.room full
                    ∷ post))
      unfolding after_leaf_insert
      after_full full =
          rw
            (
              (inserted-Ends S L s limit key v pre li post site).eq,
              dropped_lem,
              lt→ltb limit (Leaf.len leaf) full,
            )
            (split_leaf_lem S L s limit key v pre li post site h.room full
              (Ordered-left pre (li ∷ post) h.ordered) (Ordered-right pre (li ∷ post) h.ordered).1
              (AllBefore-tail pre post li (Ordered-AllBefore pre (li ∷ post) h.ordered)))

      pub insert_full :
          limit < Leaf.len leaf
          → Inserted (tree_of s limit (pre ++ li ∷ post)) key v (
              after_leaf_insert S li.id leaf
                (tree_of (S.update s li.id leaf) limit (pre ++ li ∷ post)))
      insert_full full =
          let r = insert_two S L s limit key v pre li post site h.room full in
          let l = InsertSplit.left_info S L s limit key v pre li post site h.room full in
          let m = InsertSplit.right_info S L s limit key v pre li post site h.room full in
          let s' = InsertSplit.s3 S L s limit key v pre li post site h.room full in
          record {
            after = tree_of s' limit (pre ++ l ∷ m ∷ post);
            returns = after_full full;
            valid =
                Replaced-IsValid s s' limit key v pre li (l ∷ m ∷ []) post h.room
                  (InsertSplit.valid3 S L s limit key v pre li post site h.room full) h.ordered
                  h.fits r;
            capacity = refl;
            holds =
                flat-Replaced S key v s s' limit pre li (l ∷ m ∷ []) post site.fits_pre site.above
                  r;
          }
