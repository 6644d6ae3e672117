-- ===== src/Indexes/Removal.antt =====
-- What removing a chunk from the indexes does to what can be found there.
use obnam.Prelude.{
  ◌≡◌, ◌⊎◌, refl, ap, ◌∙◌, true, false, Option, none, some, List, [], ◌∷◌, ◌++◌, arith, inl, inr,
}
use obnam.Prelude.Tests.{if◌then◌else◌, Bool-cases}
use obnam.Prelude.Keys.{Eq, ◌==◌, beq_refl, eq_of_beq, contains, remove_first}
use obnam.Indexes.KeyMap.{KeyMap}
use obnam.Indexes.Indexes.{
  Ix, find_chunk_ids_by_token, remove_used_by, remove_chunk_by_id, remove_chunk_by_checksum,
  remove_chunk_from_indexes,
}
use obnam.Indexes.Puts.{or_nil, find_of_same}

module _ {K : Type 0} ⦃e : Eq K⦄ where
  remove_first_absent : (a : K) (xs : List K) → contains xs a ≡ false → remove_first a xs ≡ xs
  remove_first_absent a [] h = refl
  remove_first_absent a (x ∷ xs) h = ground (arith, remove_first_absent a xs)

  contains-remove_first :
      (a w : K) (xs : List K) → (w == a) ≡ false → contains (remove_first a xs) w ≡ contains xs w
  contains-remove_first a w [] h = refl
  contains-remove_first a w (x ∷ xs) h = elim (Bool-cases (a == x)) [
    | inl q ↦ ground (arith, q, h, eq_of_beq a x q)
    | inr q ↦ ground (arith, q, h, contains-remove_first a w xs h)
  ]

  pub remove_first-snoc :
      (a : K) (xs : List K) → contains xs a ≡ false → remove_first a (xs ++ a ∷ []) ≡ xs
  remove_first-snoc a [] h = rw (beq_refl a)
  remove_first-snoc a (x ∷ xs) h = ground (arith, remove_first-snoc a xs)

module _ {K T1 T2 : Type 0} ⦃e : Eq K⦄ (M1 : KeyMap T1 K K) (M2 : KeyMap T2 K (List K)) where
  -- the lists of chunk ids after a chunk went from the list of its token
  abbrev pub without : Option K → K → K → Option (List K) → Option (List K)
  without (some t) c j (some ids) = if t == j then some (remove_first c ids) else some ids
  without _ c j o = o

  remove_chunk_by_checksum-lookup :
      (ix : Ix M1 M2) (c : K) (token : Option K) (j : K)
      → M2.lookup (remove_chunk_by_checksum M1 M2 ix c token).by_checksum_tree j
        ≡ without token c j (M2.lookup ix.by_checksum_tree j)
  unfolding remove_chunk_by_checksum
  remove_chunk_by_checksum-lookup ix c none j = refl
  remove_chunk_by_checksum-lookup ix c (some t) j =
      grind (arith, M2.lookup-insert ix.by_checksum_tree t j, remove_first_absent, e.beq_iff t j)

  pub remove_used_by-kept :
      (ix : Ix M1 M2) (c u : K)
      → ((remove_used_by M1 M2 ix c u).0.by_chunk_id_tree ≡ ix.by_chunk_id_tree)
        × ((remove_used_by M1 M2 ix c u).0.by_checksum_tree ≡ ix.by_checksum_tree)
  unfolding remove_used_by
  remove_used_by-kept ix c u = ground arith

  pub remove_chunk_by_id_lem :
      (ix : Ix M1 M2) (c : K)
      → ((j : K)
          → M1.lookup (remove_chunk_by_id M1 M2 ix c).0.by_chunk_id_tree j
            ≡ (if c == j then none else M1.lookup ix.by_chunk_id_tree j))
        × ((remove_chunk_by_id M1 M2 ix c).0.by_checksum_tree ≡ ix.by_checksum_tree)
        × ((remove_chunk_by_id M1 M2 ix c).1 ≡ M1.lookup ix.by_chunk_id_tree c)
  unfolding remove_chunk_by_id
  remove_chunk_by_id_lem ix c = (
    λ j. grind (arith, M1.lookup-insert ix.by_chunk_id_tree c j none, e.beq_iff c j),
    ground arith,
    ground arith,
  )

  pub remove_chunk_by_checksum-kept :
      (ix : Ix M1 M2) (c : K) (token : Option K)
      → ((remove_chunk_by_checksum M1 M2 ix c token).by_chunk_id_tree ≡ ix.by_chunk_id_tree)
        × ((remove_chunk_by_checksum M1 M2 ix c token).used_by_tree ≡ ix.used_by_tree)
  unfolding remove_chunk_by_checksum
  remove_chunk_by_checksum-kept ix c none = (refl, refl)
  remove_chunk_by_checksum-kept ix c (some t) = ground arith

  pub remove_chunk_by_id-kept :
      (ix : Ix M1 M2) (c : K) → (remove_chunk_by_id M1 M2 ix c).0.used_by_tree ≡ ix.used_by_tree
  unfolding remove_chunk_by_id
  remove_chunk_by_id-kept ix c = ground arith

  -- the chunk has no token any more, and is not listed under the one that it had
  pub record Forgotten (ix iy : Ix M1 M2) (c : K) : Type 0 where
    pub token :
        (j : K)
        → M1.lookup iy.by_chunk_id_tree j
          ≡ (if c == j then none else M1.lookup ix.by_chunk_id_tree j)
    pub listed :
        (j : K)
        → M2.lookup iy.by_checksum_tree j
          ≡ without (M1.lookup ix.by_chunk_id_tree c) c j (M2.lookup ix.by_checksum_tree j)

  pub remove_by_id_and_checksum :
      (ix iz : Ix M1 M2) (c : K)
      → iz.by_chunk_id_tree ≡ ix.by_chunk_id_tree
      → iz.by_checksum_tree ≡ ix.by_checksum_tree
      → Forgotten ix
          (remove_chunk_by_checksum M1 M2
            (remove_chunk_by_id M1 M2 iz c).0
            c
            (remove_chunk_by_id M1 M2 iz c).1)
          c
  remove_by_id_and_checksum ix iz c p q =
      let r = remove_chunk_by_id_lem iz c in
      let iy = (remove_chunk_by_id M1 M2 iz c).0 in
      let tk = (remove_chunk_by_id M1 M2 iz c).1 in
      record {
        token = λ j. cc (
          (remove_chunk_by_checksum-kept iy c tk).0,
          r.0 j,
          ap (λ t. if c == j then none else M1.lookup t j) p,
        );
        listed = λ j. remove_chunk_by_checksum-lookup iy c tk j ∙ cc (r.1, r.2, p, q);
      }

  unused :
      (ix : Ix M1 M2) (c u : K)
      → (or_nil (M2.lookup ix.used_by_tree c) ≡ u ∷ [])
        ⊎ (contains (or_nil (M2.lookup ix.used_by_tree c)) u ≡ false)
      → (remove_used_by M1 M2 ix c u).1 ≡ false
  unfolding remove_used_by
  unused ix c u (inl h) = ground (arith, beq_refl u)
  unused ix c u (inr h) = ground arith

  remove_used_by-lookup :
      (ix : Ix M1 M2) (c u j : K)
      → or_nil (M2.lookup (remove_used_by M1 M2 ix c u).0.used_by_tree j) ≡ (
          if c == j
          then remove_first u (or_nil (M2.lookup ix.used_by_tree c))
          else or_nil (M2.lookup ix.used_by_tree j))
  unfolding remove_used_by
  remove_used_by-lookup ix c u j =
      grind (arith, M2.lookup-insert ix.used_by_tree c j, remove_first_absent, e.beq_iff c j)

  -- Each removal takes the client off the users of the chunk, and leaves those of other chunks.
  remove_chunk-users :
      (ix : Ix M1 M2) (c u j : K)
      → or_nil (M2.lookup (remove_chunk_from_indexes M1 M2 ix c u).used_by_tree j) ≡ (
          if c == j
          then remove_first u (or_nil (M2.lookup ix.used_by_tree c))
          else or_nil (M2.lookup ix.used_by_tree j))
  unfolding remove_chunk_from_indexes
  remove_chunk-users ix c u j =
      let iz = (remove_used_by M1 M2 ix c u).0 in
      let k =
        remove_chunk_by_checksum-kept (remove_chunk_by_id M1 M2 iz c).0 c
          (remove_chunk_by_id M1 M2 iz c).1 in
      ground (arith, k.1, remove_chunk_by_id-kept iz c, remove_used_by-lookup ix c u j)

  -- Removing a chunk for a client that is its only user, or for a client that is none of its users,
  -- takes the chunk out of the indexes by id and by checksum: it has no token any more, and is not
  -- listed under the token that it had. The client goes off the users of the chunk, and the users of
  -- other chunks stay.
  pub remove_chunk-Forgotten :
      (ix : Ix M1 M2) (c u : K)
      → (or_nil (M2.lookup ix.used_by_tree c) ≡ u ∷ [])
        ⊎ (contains (or_nil (M2.lookup ix.used_by_tree c)) u ≡ false)
      → Forgotten ix (remove_chunk_from_indexes M1 M2 ix c u) c
        × ((j : K)
            → or_nil (M2.lookup (remove_chunk_from_indexes M1 M2 ix c u).used_by_tree j) ≡ (
                if c == j
                then remove_first u (or_nil (M2.lookup ix.used_by_tree c))
                else or_nil (M2.lookup ix.used_by_tree j)))
  unfolding remove_chunk_from_indexes
  remove_chunk-Forgotten ix c u h =
      let k = remove_used_by-kept ix c u in
      (
        rw (unused ix c u h)
            (remove_by_id_and_checksum ix (remove_used_by M1 M2 ix c u).0 c k.0 k.1),
        remove_chunk-users ix c u,
      )

  still_used :
      (ix : Ix M1 M2) (c u w : K)
      → contains (or_nil (M2.lookup ix.used_by_tree c)) u ≡ true
      → contains (remove_first u (or_nil (M2.lookup ix.used_by_tree c))) w ≡ true
      → (remove_used_by M1 M2 ix c u).1 ≡ true
  unfolding remove_used_by
  still_used ix c u w h k = ground (arith, h, k)

  -- If a chunk has two users, then removing it for one of them leaves what is found under every token
  -- and the tokens of all chunks as they were; the other one is still a user of the chunk. Just the
  -- client goes off the users of the chunk, and the users of other chunks stay.
  pub remove_chunk-still_used :
      (ix : Ix M1 M2) (c u w : K)
      → contains (or_nil (M2.lookup ix.used_by_tree c)) u ≡ true
      → contains (or_nil (M2.lookup ix.used_by_tree c)) w ≡ true
      → (w == u) ≡ false
      → ((j : K)
          → find_chunk_ids_by_token M1 M2 (remove_chunk_from_indexes M1 M2 ix c u) j
            ≡ find_chunk_ids_by_token M1 M2 ix j)
        × ((j : K)
            → M1.lookup (remove_chunk_from_indexes M1 M2 ix c u).by_chunk_id_tree j
              ≡ M1.lookup ix.by_chunk_id_tree j)
        × (contains (or_nil (M2.lookup (remove_chunk_from_indexes M1 M2 ix c u).used_by_tree c)) w
            ≡ true)
        × ((j : K)
            → or_nil (M2.lookup (remove_chunk_from_indexes M1 M2 ix c u).used_by_tree j) ≡ (
                if c == j
                then remove_first u (or_nil (M2.lookup ix.used_by_tree c))
                else or_nil (M2.lookup ix.used_by_tree j)))
  unfolding remove_chunk_from_indexes
  remove_chunk-still_used ix c u w p q r =
      let stays = contains-remove_first u w (or_nil (M2.lookup ix.used_by_tree c)) r ∙ q in
      let used = still_used ix c u w p stays in
      let k = remove_used_by-kept ix c u in
      (
        λ j. rw used (find_of_same M1 M2 _ ix j (ap (λ t. M2.lookup t j) k.1)),
        λ j. rw used (ap (λ t. M1.lookup t j) k.0),
        ap (λ us. contains us w) (remove_chunk-users ix c u c ∙ rw (beq_refl c)) ∙ stays,
        remove_chunk-users ix c u,
      )
