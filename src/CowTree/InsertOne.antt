-- ===== src/CowTree/InsertOne.antt =====
-- An insert into a leaf that has room: the leaf changes in the store, and its description follows.
use obnam.Prelude.{ℕ, ◌≤◌, ◌≡◌, true, false, Option, some, List, [], ◌∷◌, arith}
use obnam.Prelude.Tests.{if◌then◌else◌}
use obnam.Prelude.Lists.{length, All, All-map₂}
use obnam.Prelude.Keys.{Eq, Ord, ◌==◌}
use obnam.Prelude.Dict.{keys}
use obnam.Prelude.Sorted.{
  Distinct, Ascending, sorted, sorted-Ascending, All-sorted, All-sorted_inv, length-sorted,
}
use obnam.CowTree.Leaf
use obnam.CowTree.Leaf.{Leaf}
use obnam.CowTree.LeafStore.{LeafStore, Laws}
use obnam.CowTree.LeafList.{LeafInfo}
use obnam.CowTree.Order.{Before, AllBefore, Above, Below}
use obnam.CowTree.Ends.{Ends, ends_of}
use obnam.CowTree.Tree.{Value}
use obnam.CowTree.Valid.{Fits, flat, entry}
use obnam.CowTree.Middle.{Replaced}
use obnam.CowTree.Stores.{update-SameLeaves, get_leaf-update_self, ids_above, ids_below}

-- the first and the last of keys that are there
pub ends_of_nonempty :
    {K : Type 0} ⦃o : Ord K⦄ (ks : List K) → 1 ≤ length ks → Ascending ks → Ends ks
ends_of_nonempty [] n h = absurd (omega arith)
ends_of_nonempty (k ∷ ks) n h = ends_of k ks h

module _ {K V I St : Type 0} ⦃ek : Eq K⦄ ⦃o : Ord K⦄ ⦃ei : Eq I⦄
    (S : LeafStore K (Value V K I) I St) where
  -- What is known where a leaf is found for a key.
  pub record Site (L : Laws S) (s : St) (limit : ℕ) (key : K) (pre : List (LeafInfo K I))
      (li : LeafInfo K I) (post : List (LeafInfo K I)) : Type 0 where
    pub store_valid : L.IsValid s
    pub fits_pre : All (Fits S s limit) pre
    pub fits : Fits S s limit li
    pub fits_post : All (Fits S s limit) post
    pub before : AllBefore pre (li ∷ post)
    pub after : All (Before li) post
    pub above : All (Above key) pre
    pub below : All (Below key) post

  module _ (L : Laws S) (s : St) (limit : ℕ) (key : K) (v : Option (Value V K I))
      (pre : List (LeafInfo K I)) (li : LeafInfo K I) (post : List (LeafInfo K I))
      (site : Site L s limit key pre li post) where
    open site use {fits as old, store_valid}

    -- the leaf after `leaf.insert(key, value)`
    abbrev pub inserted : Leaf K (Value V K I)
    inserted = Leaf.insert key v old.leaf

    abbrev pub inserted_keys : List K
    inserted_keys = sorted (keys inserted)

    -- a key that may stand in the middle
    abbrev pub Inside : K → Type 0
    Inside x = All (Above x) pre × All (Below x) post

    Above-old :
        (x : K) (xs : List (LeafInfo K I))
        → o.le li.first_key x ≡ true
        → AllBefore xs (li ∷ post)
        → All (Above x) xs
    Above-old x [] h b = tt
    Above-old x (p ∷ xs) h b =
        (ground (arith, o.le_trans li.first_key x p.last_key, b.0.0.0), Above-old x xs h b.1)

    Below-old :
        (x : K) (xs : List (LeafInfo K I))
        → o.le x li.last_key ≡ true
        → All (Before li) xs
        → All (Below x) xs
    Below-old x [] h b = tt
    Below-old x (q ∷ xs) h b =
        (ground (arith, o.le_trans q.first_key x li.last_key, b.0.0), Below-old x xs h b.1)

    pub inserted-Inside : All Inside inserted_keys
    inserted-Inside = All-sorted Inside (keys inserted) (
        Leaf.All-keys-insert Inside key v old.leaf (site.above, site.below)
          (All-map₂ (λ x. o.le li.first_key x ≡ true) (λ x. o.le x li.last_key ≡ true) Inside
            (keys old.leaf)
            (λ x l h. (Above-old x pre l site.before, Below-old x post h site.after)) old.low
            old.high))

    pub inserted-Distinct : Distinct (keys inserted)
    inserted-Distinct = Leaf.insert-Distinct key v old.leaf old.distinct

    pub inserted-Ascending : Ascending inserted_keys
    inserted-Ascending = sorted-Ascending (keys inserted) inserted-Distinct

    pub length-inserted_keys : length inserted_keys ≡ Leaf.len inserted
    length-inserted_keys = length-sorted (keys inserted)

    pub inserted-Ends : Ends inserted_keys
    inserted-Ends =
        ends_of_nonempty inserted_keys
          (omega (arith, length-inserted_keys, Leaf.len-insert-pos key v old.leaf))
          inserted-Ascending

    pub AllBefore-of :
        (m : LeafInfo K I) (xs : List (LeafInfo K I))
        → All (Above m.first_key) xs
        → All (λ x. (x.id == m.id) ≡ false) xs
        → AllBefore xs (m ∷ [])
    AllBefore-of m [] a i = tt
    AllBefore-of m (x ∷ xs) a i = (((a.0, i.0), tt), AllBefore-of m xs a.1 i.1)

    abbrev pub new_info : LeafInfo K I
    new_info = record {
      first_key = inserted-Ends.first;
      last_key = inserted-Ends.last_one;
      id = li.id;
    }

    abbrev pub updated_store : St
    updated_store = S.update s li.id inserted

    holds_one :
        (j : K)
        → flat S updated_store (new_info ∷ []) j
          ≡ (if key == j then some v else entry S (S.get_leaf s li.id) j)
    unfolding flat
    holds_one j = ground (
      arith,
      get_leaf-update_self S L s li.id old.leaf inserted store_valid old.stored,
      old.stored,
      Leaf.get-insert key j v old.leaf,
    )

    pub insert_one :
        Leaf.len inserted ≤ limit
        → Replaced S key v s updated_store limit pre li (new_info ∷ []) post
    insert_one h = record {
      same_pre =
          update-SameLeaves S L s li.id old.leaf inserted pre store_valid old.stored
            (ids_above S L pre post li site.before);
      same_post =
          update-SameLeaves S L s li.id old.leaf inserted post store_valid old.stored
            (ids_below S L post li site.after);
      fits = (
        record {
          leaf = inserted;
          stored = get_leaf-update_self S L s li.id old.leaf inserted store_valid old.stored;
          low =
              All-sorted_inv (λ x. o.le inserted-Ends.first x ≡ true) (keys inserted)
                inserted-Ends.low;
          high =
              All-sorted_inv (λ x. o.le x inserted-Ends.last_one ≡ true) (keys inserted)
                inserted-Ends.high;
          distinct = inserted-Distinct;
          small = h;
        },
        tt,
      );
      between = record {
        ordered = (
          ((inserted-Ends.member (λ x. o.le inserted-Ends.first x ≡ true) inserted-Ends.low).1, tt),
          tt,
        );
        above =
            AllBefore-of new_info pre (inserted-Ends.member Inside inserted-Inside).0.0
              (ids_above S L pre post li site.before);
        below = (
          All-map₂ (Below inserted-Ends.last_one) (Before li) (Before new_info) post
              (λ x b c. (b, c.1)) (inserted-Ends.member Inside inserted-Inside).1.1 site.after,
          tt,
        );
      };
      holds = holds_one;
    }
