-- ===== src/Indexes/Puts.antt =====
-- What putting a chunk into the indexes does to what can be found there.
use obnam.Prelude.{◌≡◌, refl, ◌∙◌, true, false, Option, none, some, List, [], ◌∷◌, ◌++◌, arith}
use obnam.Prelude.Tests.{if◌then◌else◌}
use obnam.Prelude.Keys.{Eq, ◌==◌, beq_refl, contains, count, count_with, count-absent, count-snoc}
use obnam.Prelude.Result.{ok}
use obnam.Indexes.KeyMap.{KeyMap}
use obnam.Indexes.Indexes.{Ix, with_item, put_chunk_into_indexes, find_chunk_ids_by_token}

module _ {K : Type 0} ⦃e : Eq K⦄ where
  abbrev pub or_nil : Option (List K) → List K
  or_nil none = []
  or_nil (some xs) = xs

  pub contains-snoc : (xs : List K) (a : K) → contains (xs ++ a ∷ []) a ≡ true
  contains-snoc [] a = rw (beq_refl a)
  contains-snoc (x ∷ xs) a = ground (arith, contains-snoc xs a)

  contains-with_item : (x : K) (o : Option (List K)) → contains (with_item x o) x ≡ true
  unfolding with_item
  contains-with_item x none = rw (beq_refl x)
  contains-with_item x (some xs) = ground (arith, contains-snoc xs x)

  count-with_item :
      (c : K) (o : Option (List K)) (x : K) → count x (with_item c o) ≡ count_with (or_nil o) c x
  unfolding with_item
  count-with_item c none x = refl
  count-with_item c (some xs) x =
      ground (arith, count-snoc x c xs, count-absent c xs, e.beq_iff x c)

module _ {K T1 T2 : Type 0} ⦃e : Eq K⦄ (M1 : KeyMap T1 K K) (M2 : KeyMap T2 K (List K)) where
  find_of_contains :
      (ix : Ix M1 M2) (j c : K) (ids : List K)
      → M2.lookup ix.by_checksum_tree j ≡ some ids
      → contains ids c ≡ true
      → find_chunk_ids_by_token M1 M2 ix j ≡ ok ids
  unfolding find_chunk_ids_by_token
  find_of_contains ix j c [] p h = cc
  find_of_contains ix j c (i ∷ is) p h = ground (arith, p)

  pub find_of_same :
      (ix iy : Ix M1 M2) (j : K)
      → M2.lookup ix.by_checksum_tree j ≡ M2.lookup iy.by_checksum_tree j
      → find_chunk_ids_by_token M1 M2 ix j ≡ find_chunk_ids_by_token M1 M2 iy j
  unfolding find_chunk_ids_by_token
  find_of_same ix iy j p = ground (arith, p)

  -- After a put the chunk is found under its token, and has that token; under the token are found just
  -- the chunk ids that were listed there and the chunk, each as often as it was, and the chunk once if
  -- it was not listed. The client is a user of the chunk, besides just those that it had, and is
  -- recorded once if it was none of them. What is found under other tokens, the tokens of other chunks
  -- and their users are as before.
  pub put_chunk_into_indexes_lem :
      (ix : Ix M1 M2) (c t u : K)
      → ((ids : List K) × (find_chunk_ids_by_token M1 M2 (put_chunk_into_indexes M1 M2 ix c t u) t
            ≡ ok ids)
          × (contains ids c ≡ true)
          × ((x : K) → count x ids ≡ count_with (or_nil (M2.lookup ix.by_checksum_tree t)) c x))
        × ((j : K)
            → (t == j) ≡ false
            → find_chunk_ids_by_token M1 M2 (put_chunk_into_indexes M1 M2 ix c t u) j
              ≡ find_chunk_ids_by_token M1 M2 ix j)
        × ((j : K)
            → M1.lookup (put_chunk_into_indexes M1 M2 ix c t u).by_chunk_id_tree j
              ≡ (if c == j then some t else M1.lookup ix.by_chunk_id_tree j))
        × ((us : List K) × (M2.lookup (put_chunk_into_indexes M1 M2 ix c t u).used_by_tree c
              ≡ some us)
            × (contains us u ≡ true)
            × ((x : K) → count x us ≡ count_with (or_nil (M2.lookup ix.used_by_tree c)) u x))
        × ((j : K)
            → (c == j) ≡ false
            → M2.lookup (put_chunk_into_indexes M1 M2 ix c t u).used_by_tree j
              ≡ M2.lookup ix.used_by_tree j)
  unfolding put_chunk_into_indexes
  put_chunk_into_indexes_lem ix c t u =
      let ids = with_item c (M2.lookup ix.by_checksum_tree t) in
      let us = with_item u (M2.lookup ix.used_by_tree c) in
      (
        (
          ids,
          find_of_contains (put_chunk_into_indexes M1 M2 ix c t u) t c ids
              (M2.lookup-insert ix.by_checksum_tree t t (some ids) ∙ rw (beq_refl t))
              (contains-with_item c (M2.lookup ix.by_checksum_tree t)),
          contains-with_item c (M2.lookup ix.by_checksum_tree t),
          count-with_item c (M2.lookup ix.by_checksum_tree t),
        ),
        λ j h.
            find_of_same (put_chunk_into_indexes M1 M2 ix c t u) ix j
              (M2.lookup-insert ix.by_checksum_tree t j (some ids) ∙ rw h),
        λ j. M1.lookup-insert ix.by_chunk_id_tree c j (some t),
        (
          us,
          M2.lookup-insert ix.used_by_tree c c (some us) ∙ rw (beq_refl c),
          contains-with_item u (M2.lookup ix.used_by_tree c),
          count-with_item u (M2.lookup ix.used_by_tree c),
        ),
        λ j h. M2.lookup-insert ix.used_by_tree c j (some us) ∙ rw h,
      )

  pub put_chunk-used :
      (ix : Ix M1 M2) (c t u : K)
      → M2.lookup (put_chunk_into_indexes M1 M2 ix c t u).used_by_tree c
        ≡ some (with_item u (M2.lookup ix.used_by_tree c))
  unfolding put_chunk_into_indexes
  put_chunk-used ix c t u =
      M2.lookup-insert ix.used_by_tree c c (some (with_item u (M2.lookup ix.used_by_tree c)))
      ∙ rw (beq_refl c)

  pub put_chunk-listed :
      (ix : Ix M1 M2) (c t u j : K)
      → M2.lookup (put_chunk_into_indexes M1 M2 ix c t u).by_checksum_tree j ≡ (
          if t == j
          then some (with_item c (M2.lookup ix.by_checksum_tree t))
          else M2.lookup ix.by_checksum_tree j)
  unfolding put_chunk_into_indexes
  put_chunk-listed ix c t u j =
      M2.lookup-insert ix.by_checksum_tree t j
        (some (with_item c (M2.lookup ix.by_checksum_tree t)))
