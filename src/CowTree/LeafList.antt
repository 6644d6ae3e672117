-- ===== src/CowTree/LeafList.antt =====
-- obnamlib/fmt_ga/cowtree.py: `_LeafList`, the leaf descriptions in the order of their first keys.
use obnam.Prelude.{Option, none, some, List, [], ◌∷◌, ◌++◌}
use obnam.Prelude.Tests.{if◌then◌else◌}
use obnam.Prelude.Keys.{Eq, Ord, ◌==◌}
use obnam.Prelude.Result.{Result, ok, raise}

pub data Error : Type 0 where
  assertion_error index_error attribute_error type_error : Error

pub record LeafInfo (K I : Type 0) : Type 0 where
  pub first_key : K
  pub last_key : K
  pub id : I

module _ {A : Type 0} where
  -- `xs[-1]`, or `none` for an empty list
  abbrev pub last : List A → Option A
  last [] = none
  last (x ∷ []) = some x
  last (x ∷ y ∷ ys) = last (y ∷ ys)

module _ {K I : Type 0} ⦃o : Ord K⦄ where
  -- the loop of `find_leaf_for_key`, and the `assert False` behind it
  unfoldable pub first_reaching : K → List (LeafInfo K I) → Result Error (Option I)
  first_reaching key [] = raise assertion_error
  first_reaching key (li ∷ rest) =
      if o.le key li.last_key then ok (some li.id) else first_reaching key rest

  unfoldable pub find_leaf_for_key : K → List (LeafInfo K I) → Result Error (Option I)
  unfolding first_reaching
  find_leaf_for_key key infos = elim (last infos) [
    | none ↦ ok none
    | some li ↦ if o.le li.last_key key then ok (some li.id) else first_reaching key infos
  ]

  -- `list.sort(key=...)`, which keeps the order of equal keys
  unfoldable pub insert_sorted : LeafInfo K I → List (LeafInfo K I) → List (LeafInfo K I)
  insert_sorted li [] = li ∷ []
  insert_sorted li (lj ∷ rest) =
      if o.le li.first_key lj.first_key then li ∷ lj ∷ rest else lj ∷ insert_sorted li rest

  unfoldable pub sort : List (LeafInfo K I) → List (LeafInfo K I)
  unfolding insert_sorted
  sort [] = []
  sort (li ∷ rest) = insert_sorted li (sort rest)

  unfoldable pub insert_leaf : K → K → I → List (LeafInfo K I) → List (LeafInfo K I)
  insert_leaf first last_one leaf_id infos =
      sort (infos ++ record { first_key = first; last_key = last_one; id = leaf_id } ∷ [])

module _ {K I : Type 0} ⦃e : Eq I⦄ where
  unfoldable pub update_leaf : I → K → K → List (LeafInfo K I) → List (LeafInfo K I)
  update_leaf leaf_id first last_one [] = []
  update_leaf leaf_id first last_one (li ∷ rest) =
      (if li.id == leaf_id then record li { first_key = first; last_key = last_one } else li)
      ∷ update_leaf leaf_id first last_one rest

  unfoldable pub drop_leaf : I → List (LeafInfo K I) → List (LeafInfo K I)
  drop_leaf leaf_id [] = []
  drop_leaf leaf_id (li ∷ rest) =
      let others = drop_leaf leaf_id rest in if li.id == leaf_id then others else li ∷ others
