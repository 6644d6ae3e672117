-- ===== src/Bag/Reads.antt =====
-- What a blob store holds, and that `get_blob` returns just that, whatever is cached.
use obnam.Prelude.{
  ℕ, suc, ◌+◌, ◌≡◌, refl, sym, ap, ◌∙◌, Bool, true, false, Option, none, some, List, [], ◌∷◌, arith,
  inl, inr,
}
use obnam.Prelude.Tests.{nat_beq, Option-cases}
use obnam.Prelude.Lists.{get_elem?}
use obnam.Prelude.Keys.{nat_eq, list_eq}
use obnam.Prelude.Result.{Result, ok, raise}
use obnam.Bag.ObjectId.{make_object_id, parse-make, make_object_id-injective}
use obnam.Bag.Bag.{Bag, BagId, Error, number, index_error}
use obnam.Bag.BlobCache
use obnam.Bag.BlobCache.{BlobCache}
use obnam.Bag.BlobStore.{BagStore, BlobStore, open_bag, cache_bag, read_bag, get_blob}

abbrev pub is_some : {A : Type 0} → Option A → Bool
is_some none = false
is_some (some a) = true

-- What a blob store needs of a bag store.
pub record Laws {B St : Type 0} (S : BagStore B St) : Type 1 where
  pub IsValid : St → Type 0
  pub reserve-IsValid : (st : St) → IsValid st → IsValid (S.reserve_bag_id st).1
  pub put-IsValid : (st : St) (i : BagId) (b : Bag B) → IsValid st → IsValid (S.put_bag st i b)
  -- a reserved identifier names no bag yet
  pub reserve_fresh : (st : St) → IsValid st → S.get_bag st (number (S.reserve_bag_id st).0) ≡ none
  pub get-reserve :
      (st : St) (i : BagId) → IsValid st → S.get_bag (S.reserve_bag_id st).1 i ≡ S.get_bag st i
  pub get-put_self :
      (st : St) (i : BagId) (b : Bag B)
      → IsValid st
      → b.bag_id ≡ some i
      → S.get_bag (S.put_bag st i b) i ≡ some b
  pub get-put_ne :
      (st : St) (n m : ℕ) (b : Bag B)
      → IsValid st
      → nat_beq n m ≡ false
      → S.get_bag (S.put_bag st (number n) b) (number m) ≡ S.get_bag st (number m)
  pub has-get : (st : St) (i : BagId) → IsValid st → S.has_bag st i ≡ is_some (S.get_bag st i)

abbrev pub blobs_of : {B : Type 0} → Option (Bag B) → Option (List B)
blobs_of none = none
blobs_of (some b) = some b.blobs

module _ {B St : Type 0} (S : BagStore B St) where
  -- the blobs of a bag, in memory or stored
  unfoldable pub bag_at : BlobStore B St → ℕ → Option (List B)
  unfolding open_bag
  bag_at s n = elim (open_bag n s.bag) [
    | some bag ↦ some bag.blobs
    | none ↦ blobs_of (S.get_bag s.bag_store (number n))
  ]

  -- what reading a blob has to return
  abbrev pub result_at : Option (List B) → ℕ → Result Error (Option B)
  result_at none i = ok none
  result_at (some bs) i = elim (get_elem? bs i) [ none ↦ raise index_error | some b ↦ ok (some b) ]

  -- Every cached blob is that of a stored bag.
  pub record Holds (st : St) (n i : ℕ) (x : B) : Type 0 where
    pub bag : Bag B
    pub stored : S.get_bag st (number n) ≡ some bag
    pub there : get_elem? bag.blobs i ≡ some x

  abbrev pub CacheOk : St → BlobCache B → Type 0
  CacheOk st c =
      (n i : ℕ) (x : B) → BlobCache.lookup c (make_object_id n i) ≡ some x → Holds st n i x

  -- The open bag has blobs, a number, and no bag of that number is stored.
  pub record OpenBag (st : St) (bag : Bag B) : Type 0 where
    pub id : ℕ
    pub numbered : bag.bag_id ≡ some (number id)
    pub first : B
    pub rest : List B
    pub filled : bag.blobs ≡ first ∷ rest
    pub fresh : S.get_bag st (number id) ≡ none

  abbrev pub OpenOk : St → Option (Bag B) → Type 0
  OpenOk st none = Unit
  OpenOk st (some bag) = OpenBag st bag

  pub record IsValid (L : Laws S) (s : BlobStore B St) : Type 0 where
    pub store_valid : L.IsValid s.bag_store
    pub open_ok : OpenOk s.bag_store s.bag
    pub cache_ok : CacheOk s.bag_store s.cached_blobs

  result_at-some :
      (bs : List B) (i : ℕ) (b : B) → get_elem? bs i ≡ some b → result_at (some bs) i ≡ ok (some b)
  result_at-some bs i b e = rw (e, result_at)

  pub bag_at_closed :
      (s : BlobStore B St) (n : ℕ)
      → open_bag n s.bag ≡ none
      → bag_at s n ≡ blobs_of (S.get_bag s.bag_store (number n))
  unfolding bag_at
  bag_at_closed s n e = rw (e, bag_at)

  pub bag_at_open :
      (s : BlobStore B St) (n : ℕ) (bag : Bag B)
      → open_bag n s.bag ≡ some bag
      → bag_at s n ≡ some bag.blobs
  unfolding bag_at
  bag_at_open s n bag e = rw (e, bag_at)

module _ {B St : Type 0} (size : B → ℕ) (S : BagStore B St) where
  insert-CacheOk :
      (st : St) (n i : ℕ) (b : B) (c : BlobCache B)
      → Holds S st n i b
      → CacheOk S st c
      → CacheOk S st (BlobCache.insert size (make_object_id n i) b c)
  insert-CacheOk st n i b c h ok_ m j x e =
      elim (BlobCache.lookup-insert size (make_object_id n i) (make_object_id m j) b x c e) [
        | inl (same, eq) ↦
            let t = list_eq.beq_iff (make_object_id n i) (make_object_id m j) in
            let p = make_object_id-injective n i m j (t.0 same) in
            record {
              bag = h.bag;
              stored = ap (λ k. S.get_bag st (number k)) (sym p.0) ∙ h.stored;
              there = ap (get_elem? h.bag.blobs) (sym p.1) ∙ h.there ∙ ap some eq;
            }
        | inr (ne, old) ↦ ok_ m j x old
      ]

  cache_bag-CacheOk :
      (st : St) (n i : ℕ) (bs : List B) (c : BlobCache B) (bag : Bag B)
      → S.get_bag st (number n) ≡ some bag
      → ((k : ℕ) → get_elem? bag.blobs (i + k) ≡ get_elem? bs k)
      → CacheOk S st c
      → CacheOk S st (cache_bag size S n i bs c)
  unfolding cache_bag
  cache_bag-CacheOk st n i [] c bag e f h = h
  cache_bag-CacheOk st n i (b ∷ bs) c bag e f h =
      cache_bag-CacheOk st n (i + 1) bs (BlobCache.insert size (make_object_id n i) b c) bag e
        (λ k. ap (get_elem? bag.blobs) (omega arith) ∙ f (suc k))
        (insert-CacheOk st n i b c
          (record { bag = bag; stored = e; there = ap (get_elem? bag.blobs) (omega arith) ∙ f 0 })
          h)

  -- Reading changes nothing but the cache.
  pub record SameBags (s s' : BlobStore B St) : Type 0 where
    pub store : s'.bag_store ≡ s.bag_store
    pub bag : s'.bag ≡ s.bag

  read_bag_lem :
      (L : Laws S) (s : BlobStore B St) (n i : ℕ)
      → IsValid S L s
      → open_bag n s.bag ≡ none
      → ((read_bag size S s n i).0 ≡ result_at S (bag_at S s n) i)
        × IsValid S L (read_bag size S s n i).1
        × SameBags s (read_bag size S s n i).1
  unfolding read_bag
  read_bag_lem L s n i v closed =
      go (S.get_bag s.bag_store (number n)) refl (L.has-get s.bag_store (number n) v.store_valid)
    where
      go :
          (o : Option (Bag B))
          → S.get_bag s.bag_store (number n) ≡ o
          → S.has_bag s.bag_store (number n) ≡ is_some (S.get_bag s.bag_store (number n))
          → ((read_bag size S s n i).0 ≡ result_at S (bag_at S s n) i)
            × IsValid S L (read_bag size S s n i).1
            × SameBags s (read_bag size S s n i).1
      go none e h =
          rw (h, bag_at_closed S s n closed, e) (refl, v, record { store = refl; bag = refl })
      go (some bag) e h =
          rw (h, bag_at_closed S s n closed, e)
            (
              refl,
              record {
                store_valid = v.store_valid;
                open_ok = v.open_ok;
                cache_ok =
                    cache_bag-CacheOk s.bag_store n 0 bag.blobs s.cached_blobs bag e
                      (λ k. ap (get_elem? bag.blobs) (omega arith)) v.cache_ok;
              },
              record { store = refl; bag = refl },
            )

  get_made :
      (L : Laws S) (s : BlobStore B St) (n i : ℕ)
      → IsValid S L s
      → ((get_blob size S s (make_object_id n i)).0 ≡ result_at S (bag_at S s n) i)
        × IsValid S L (get_blob size S s (make_object_id n i)).1
        × SameBags s (get_blob size S s (make_object_id n i)).1
  unfolding get_blob
  get_made L s n i v = elim (Option-cases (open_bag n s.bag)) [
    | inr (bag, e) ↦
        rw (get_blob, parse-make n i, e, bag_at_open S s n bag e)
          (refl, v, record { store = refl; bag = refl })
    | inl closed ↦ elim (Option-cases (BlobCache.lookup s.cached_blobs (make_object_id n i))) [
      | inl miss ↦ rw (get_blob, parse-make n i, closed, miss) (read_bag_lem L s n i v closed)
      | inr (b, hit) ↦
          let h = v.cache_ok n i b hit in
          rw (get_blob, parse-make n i, closed, hit, bag_at_closed S s n closed, h.stored)
            (sym (result_at-some S h.bag.blobs i b h.there), v, record { store = refl; bag = refl })
    ]
  ]

  SameBags-bag_at : (s s' : BlobStore B St) (n : ℕ) → SameBags s s' → bag_at S s' n ≡ bag_at S s n
  unfolding bag_at
  SameBags-bag_at s s' n h = rw (h.bag, h.store)

  -- Reading the blob of an object id returns the blob of that index in the bag of that number, open
  -- or stored; `None` if there is no such bag, and an `IndexError` if the bag has no such blob. It
  -- keeps the store well formed, and changes no bag.
  pub get_blob_lem :
      (L : Laws S) (s : BlobStore B St) (n i : ℕ)
      → IsValid S L s
      → ((get_blob size S s (make_object_id n i)).0 ≡ result_at S (bag_at S s n) i)
        × IsValid S L (get_blob size S s (make_object_id n i)).1
        × ((m : ℕ) → bag_at S (get_blob size S s (make_object_id n i)).1 m ≡ bag_at S s m)
  get_blob_lem L s n i v =
      let (result, valid, same) = get_made L s n i v in
      (result, valid, λ m. SameBags-bag_at s (get_blob size S s (make_object_id n i)).1 m same)
