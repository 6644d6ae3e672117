-- ===== src/CowTree/Edits.antt =====
-- The edits of an ordered leaf list, as an insert makes them: a description in the middle is
-- replaced by one or by two.
use obnam.Prelude.{◌≡◌, refl, ap, true, false, List, [], ◌∷◌, ◌++◌}
use obnam.Prelude.Lists.{All}
use obnam.Prelude.Keys.{Eq, Ord, ◌==◌, beq_refl}
use obnam.CowTree.LeafList.{LeafInfo, insert_sorted, sort, insert_leaf, update_leaf, drop_leaf}
use obnam.CowTree.Order.{Before, IsRange, Ordered, Above, Below}

module _ {K I : Type 0} ⦃o : Ord K⦄ ⦃ei : Eq I⦄ where
  first_le : (x y : LeafInfo K I) → IsRange x → Before x y → o.le x.first_key y.first_key ≡ true
  first_le x y r b =
      o.le_trans x.first_key x.last_key y.first_key r (o.le_total y.first_key x.last_key b.0)

  insert_sorted-head :
      (x : LeafInfo K I) (rest : List (LeafInfo K I))
      → IsRange x
      → All (Before x) rest
      → insert_sorted x rest ≡ x ∷ rest
  unfolding insert_sorted
  insert_sorted-head x [] r b = refl
  insert_sorted-head x (y ∷ rest) r b = rw (first_le x y r b.0)

  insert_sorted-second :
      (n q : LeafInfo K I) (rest : List (LeafInfo K I))
      → IsRange q
      → Below n.first_key q
      → All (Before q) rest
      → insert_sorted q (n ∷ rest) ≡ n ∷ q ∷ rest
  insert_sorted-second n q rest r h b =
      unfold insert_sorted in rw h (ap (◌∷◌ n) (insert_sorted-head q rest r b))

  sort-post :
      (n : LeafInfo K I) (post : List (LeafInfo K I))
      → Ordered post
      → All (Below n.first_key) post
      → sort (post ++ n ∷ []) ≡ n ∷ post
  unfolding sort
  sort-post n [] h b = refl
  sort-post n (q ∷ post) h b =
      rw (sort-post n post h.1 b.1) (insert_sorted-second n q post h.0.0 b.0 h.0.1)

  insert_sorted-Before :
      (n p : LeafInfo K I) (pre post : List (LeafInfo K I))
      → IsRange p
      → Above n.first_key p
      → All (Before p) (pre ++ post)
      → insert_sorted p (pre ++ n ∷ post) ≡ p ∷ pre ++ n ∷ post
  unfolding insert_sorted
  insert_sorted-Before n p [] post r a b =
      rw (o.le_trans p.first_key p.last_key n.first_key r (o.le_total n.first_key p.last_key a))
  insert_sorted-Before n p (x ∷ pre) post r a b = rw (first_le p x r b.0)

  sort-pre :
      (n : LeafInfo K I) (pre post : List (LeafInfo K I))
      → Ordered (pre ++ post)
      → All (Above n.first_key) pre
      → All (Below n.first_key) post
      → sort ((pre ++ post) ++ n ∷ []) ≡ pre ++ n ∷ post
  unfolding sort
  sort-pre n [] post h a b = sort-post n post h b
  sort-pre n (p ∷ pre) post h a b =
      rw (sort-pre n pre post h.1 a.1 b) (insert_sorted-Before n p pre post h.0.0 a.0 h.0.1)

  -- A new leaf whose first key lies between two parts of the list goes between them.
  pub insert_leaf-between :
      (first last_one : K) (i : I) (pre post : List (LeafInfo K I))
      → Ordered (pre ++ post)
      → All (Above first) pre
      → All (Below first) post
      → insert_leaf first last_one i (pre ++ post)
        ≡ pre ++ record { first_key = first; last_key = last_one; id = i } ∷ post
  unfolding insert_leaf
  insert_leaf-between first last_one i pre post h a b =
      sort-pre (record { first_key = first; last_key = last_one; id = i }) pre post h a b

  update_leaf-others :
      (i : I) (first last_one : K) (xs : List (LeafInfo K I))
      → All (λ x. (x.id == i) ≡ false) xs
      → update_leaf i first last_one xs ≡ xs
  unfolding update_leaf
  update_leaf-others i first last_one [] h = refl
  update_leaf-others i first last_one (x ∷ xs) h =
      rw h.0 (ap (◌∷◌ x) (update_leaf-others i first last_one xs h.1))

  pub update_leaf-middle :
      (li : LeafInfo K I) (first last_one : K) (pre post : List (LeafInfo K I))
      → All (λ x. (x.id == li.id) ≡ false) pre
      → All (λ x. (x.id == li.id) ≡ false) post
      → update_leaf li.id first last_one (pre ++ li ∷ post)
        ≡ pre ++ record { first_key = first; last_key = last_one; id = li.id } ∷ post
  unfolding update_leaf
  update_leaf-middle li first last_one [] post a b =
      rw (beq_refl li.id, update_leaf-others li.id first last_one post b)
  update_leaf-middle li first last_one (x ∷ pre) post a b =
      rw a.0 (ap (◌∷◌ x) (update_leaf-middle li first last_one pre post a.1 b))

  drop_leaf-others :
      (i : I) (xs : List (LeafInfo K I)) → All (λ x. (x.id == i) ≡ false) xs → drop_leaf i xs ≡ xs
  unfolding drop_leaf
  drop_leaf-others i [] h = refl
  drop_leaf-others i (x ∷ xs) h = rw h.0 (ap (◌∷◌ x) (drop_leaf-others i xs h.1))

  pub drop_leaf-middle :
      (li : LeafInfo K I) (pre post : List (LeafInfo K I))
      → All (λ x. (x.id == li.id) ≡ false) pre
      → All (λ x. (x.id == li.id) ≡ false) post
      → drop_leaf li.id (pre ++ li ∷ post) ≡ pre ++ post
  unfolding drop_leaf
  drop_leaf-middle li [] post a b = rw (beq_refl li.id) (drop_leaf-others li.id post b)
  drop_leaf-middle li (x ∷ pre) post a b = rw a.0 (ap (◌∷◌ x) (drop_leaf-middle li pre post a.1 b))
