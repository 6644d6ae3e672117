-- ===== src/Bag/Writes.antt =====
-- `put_blob` and `flush`: what they add to a blob store, and what they leave.
use obnam.Prelude.{
  ℕ, ◌+◌, ◌-◌, ◌≡◌, refl, sym, ap, subst, ◌∙◌, Option, none, some, List, [], ◌∷◌, ◌++◌, arith, inl,
  inr,
}
use obnam.Prelude.Tests.{if◌then◌else◌, leb, nat_beq, nat_beq_iff, Bool-cases, Option-cases}
use obnam.Prelude.Lists.{length, length-append, get_elem?}
use obnam.Prelude.Keys.{beq_refl, nat_eq}
use obnam.Prelude.Result.{Result, ok}
use obnam.Bag.ObjectId.{Text, make_object_id}
use obnam.Bag.Bag.{Bag, BagId, Error, number, append, empty, set_id, get_elem?-append}
use obnam.Bag.BlobStore.{BagStore, BlobStore, flush, current_bag, put_blob, get_blob}
use obnam.Bag.Flush.{bag_at-OpenBag, bag_at-none, flush-Flushed}
use obnam.Bag.Reads.{Laws, IsValid, OpenBag, OpenOk, bag_at, blobs_of, result_at, get_blob_lem}

abbrev pub or_nil : {B : Type 0} → Option (List B) → List B
or_nil none = []
or_nil (some bs) = bs

module _ {B St : Type 0} (size : B → ℕ) (S : BagStore B St) (L : Laws S) where
  -- the open bag after an append, before the test of its size
  abbrev with_bag : BlobStore B St → St → Bag B → BlobStore B St
  with_bag s st bag = record s { bag_store = st; bag = some bag }

  abbrev grown : Bag B → B → Bag B
  grown bag blob = record bag {
    blobs = bag.blobs ++ blob ∷ [];
    blobs_bytes = bag.blobs_bytes + size blob;
  }

  append-grown :
      (bag : Bag B) (n : ℕ) (blob : B)
      → bag.bag_id ≡ some (number n)
      → append size bag blob ≡ (grown bag blob, ok (make_object_id n (length bag.blobs)))
  unfolding append
  append-grown bag n blob e = ground (
    arith,
    e,
    ap (λ k. make_object_id n k)
        (let h : length (bag.blobs ++ blob ∷ []) - 1 ≡ length bag.blobs =
            omega (arith, length-append bag.blobs (blob ∷ [])) in
          h),
  )

  -- What a put adds: one blob, at the end of the bag that it went to.
  pub record Put (s s' : BlobStore B St) (blob : B) (returned : Result Error Text) : Type 0 where
    pub id : ℕ
    pub returns : returned ≡ ok (make_object_id id (length (or_nil (bag_at S s id))))
    pub valid : IsValid S L s'
    pub holds :
        (m : ℕ)
        → bag_at S s' m
          ≡ (if nat_beq m id then some (or_nil (bag_at S s id) ++ blob ∷ []) else bag_at S s m)

  store_full : ℕ → ℕ → BlobStore B St → BlobStore B St
  store_full limit bytes s = if leb limit bytes then flush S s else s

  store_full-Put :
      (s s1 : BlobStore B St) (blob : B) (r : Result Error Text) (limit bytes : ℕ)
      → Put s s1 blob r
      → Put s (store_full limit bytes s1) blob r
  unfolding store_full
  store_full-Put s s1 blob r limit bytes p = elim (Bool-cases (leb limit bytes)) [
    | inl c ↦
        let f = flush-Flushed S L s1 p.valid in
        rw c (record {
          id = p.id;
          returns = p.returns;
          valid = f.valid;
          holds = λ m. f.same m ∙ p.holds m;
        })
    | inr c ↦ rw c p
  ]

  Put-open :
      (s : BlobStore B St) (bag : Bag B) (blob : B)
      → s.bag ≡ some bag
      → IsValid S L s
      → OpenBag S s.bag_store bag
      → Put s (with_bag s s.bag_store (grown bag blob)) blob (append size bag blob).1
  Put-open s bag blob e v o =
      let here : bag_at S s o.id ≡ some bag.blobs =
        bag_at-OpenBag S s bag o o.id e ∙ rw (beq_refl o.id) in
      let o' : OpenBag S s.bag_store (grown bag blob) = record {
        id = o.id;
        numbered = o.numbered;
        first = o.first;
        rest = o.rest ++ blob ∷ [];
        filled = ap (λ bs. bs ++ blob ∷ []) o.filled;
        fresh = o.fresh;
      } in
      record {
        id = o.id;
        returns = rw here (ap (λ r. r.1) (append-grown bag o.id blob o.numbered));
        valid = record { store_valid = v.store_valid; open_ok = o'; cache_ok = v.cache_ok };
        holds = λ m. ground (
          arith,
          here,
          bag_at-OpenBag S s bag o m e,
          bag_at-OpenBag S (with_bag s s.bag_store (grown bag blob)) (grown bag blob) o' m refl,
        );
      }

  Put-new :
      (s : BlobStore B St) (blob : B)
      → s.bag ≡ none
      → IsValid S L s
      → Put s
          (with_bag s
            (S.reserve_bag_id s.bag_store).1
            (grown (set_id (number (S.reserve_bag_id s.bag_store).0) empty) blob))
          blob
          (append size (set_id (number (S.reserve_bag_id s.bag_store).0) empty) blob).1
  Put-new s blob e v =
      let (n, st) = S.reserve_bag_id s.bag_store in
      let bag : Bag B = set_id (number n) empty in
      let same = λ (i : BagId). L.get-reserve s.bag_store i v.store_valid in
      let fresh = L.reserve_fresh s.bag_store v.store_valid in
      let here : bag_at S s n ≡ none = bag_at-none S s n e ∙ ap blobs_of fresh in
      let o' : OpenBag S st (grown bag blob) = record {
        id = n;
        numbered = refl;
        first = blob;
        rest = [];
        filled = refl;
        fresh = same (number n) ∙ fresh;
      } in
      record {
        id = n;
        returns = rw here (ap (λ r. r.1) (append-grown bag n blob refl));
        valid = record {
          store_valid = L.reserve-IsValid s.bag_store v.store_valid;
          open_ok = o';
          cache_ok = λ m i x c.
              let h = v.cache_ok m i x c in
              record { bag = h.bag; stored = same (number m) ∙ h.stored; there = h.there };
        };
        holds = λ m. ground (
          arith,
          here,
          bag_at-none S s m e,
          same (number m),
          bag_at-OpenBag S (with_bag s st (grown bag blob)) (grown bag blob) o' m refl,
        );
      }

  open_ok_of :
      (s : BlobStore B St) (bag : Bag B)
      → s.bag ≡ some bag
      → IsValid S L s
      → OpenBag S s.bag_store bag
  open_ok_of s bag e v = subst (OpenOk S s.bag_store) e v.open_ok

  current_bag-open :
      (s : BlobStore B St) (bag : Bag B) → s.bag ≡ some bag → current_bag S s ≡ (bag, s.bag_store)
  unfolding current_bag
  current_bag-open s bag e = rw (e, current_bag)

  current_bag-none :
      (s : BlobStore B St)
      → s.bag ≡ none
      → current_bag S s
        ≡ (set_id (number (S.reserve_bag_id s.bag_store).0) empty, (S.reserve_bag_id s.bag_store).1)
  unfolding current_bag
  current_bag-none s e = rw (e, current_bag)

  append-blobs :
      (bag : Bag B) (n : ℕ) (blob : B)
      → bag.bag_id ≡ some (number n)
      → (append size bag blob).0 ≡ grown bag blob
  append-blobs bag n blob e = ap (λ r. r.0) (append-grown bag n blob e)

  -- Whether a bag was open or not, and whether the bag is stored at once or not, a put adds just the
  -- blob at the end of a bag, and returns the blob's object id.
  pub put_blob-Put :
      (s : BlobStore B St) (blob : B)
      → IsValid S L s
      → Put s (put_blob size S s blob).1 blob (put_blob size S s blob).0
  unfolding put_blob store_full
  put_blob-Put s blob v = elim (Option-cases s.bag) [
    | inl e ↦
        let n = (S.reserve_bag_id s.bag_store).0 in
        let bag : Bag B = set_id (number n) empty in
        rw (current_bag-none s e, append-blobs bag n blob refl)
          (store_full-Put s (with_bag s (S.reserve_bag_id s.bag_store).1 (grown bag blob)) blob
            (append size bag blob).1 s.max_bag_size (0 + size blob) (Put-new s blob e v))
    | inr (bag, e) ↦
        let o = open_ok_of s bag e v in
        rw (current_bag-open s bag e, append-blobs bag o.id blob o.numbered)
          (store_full-Put s (with_bag s s.bag_store (grown bag blob)) blob (append size bag blob).1
            s.max_bag_size (bag.blobs_bytes + size blob) (Put-open s bag blob e v o))
  ]

  result_at-append_self :
      (bs : List B) (b : B) → result_at S (some (bs ++ b ∷ [])) (length bs) ≡ ok (some b)
  result_at-append_self bs b = ground (arith, get_elem?-append bs b (length bs))

  get_elem?-length : (bs : List B) → get_elem? bs (length bs) ≡ none
  get_elem?-length [] = refl
  get_elem?-length (b ∷ bs) = get_elem?-length bs

  result_at-kept :
      (n m j : ℕ) (old : List B) (new b : B) (o : Option (List B))
      → (m ≡ n → old ≡ or_nil o)
      → result_at S o j ≡ ok (some b)
      → result_at S (if nat_beq m n then some (old ++ new ∷ []) else o) j ≡ ok (some b)
  result_at-kept n m j old new b none same h = cc
  result_at-kept n m j old new b (some bs) same h = elim (Bool-cases (nat_beq m n)) [
    | inl c ↦
        rw (c, same ((nat_beq_iff m n).0 c))
          (ground
            (arith, get_elem?-append bs new j, get_elem?-length bs, nat_beq_iff j (length bs)))
    | inr c ↦ rw c h
  ]

  -- `put_blob` returns the object id of the blob, and that id then reads as the blob. Every id that
  -- read as a blob before reads as the same blob, whether the put stored a bag or not, and the
  -- store is still well formed.
  pub get_blob-put_blob :
      (s : BlobStore B St) (blob : B)
      → IsValid S L s
      → (n i : ℕ) × ((put_blob size S s blob).0 ≡ ok (make_object_id n i))
        × ((get_blob size S (put_blob size S s blob).1 (make_object_id n i)).0 ≡ ok (some blob))
        × IsValid S L (put_blob size S s blob).1
        × ((m j : ℕ) (b : B)
            → (get_blob size S s (make_object_id m j)).0 ≡ ok (some b)
            → (get_blob size S (put_blob size S s blob).1 (make_object_id m j)).0 ≡ ok (some b))
  get_blob-put_blob s blob v =
      let p = put_blob-Put s blob v in
      let s' = (put_blob size S s blob).1 in
      let old = or_nil (bag_at S s p.id) in
      let read = λ (m j : ℕ). (get_blob_lem size S L s' m j p.valid).0 in
      (
        p.id,
        length old,
        p.returns,
        read p.id (length old)
            ∙ ap (λ bs. result_at S bs (length old)) {y = some (old ++ blob ∷ [])}
                (p.holds p.id ∙ rw (beq_refl p.id))
            ∙ result_at-append_self old blob,
        p.valid,
        λ m j b h.
            read m j
            ∙ ap (λ bs. result_at S bs j) (p.holds m)
            ∙ result_at-kept p.id m j old blob b (bag_at S s m)
                (λ e. ap (λ k. or_nil (bag_at S s k)) (sym e))
                (sym (get_blob_lem size S L s m j v).0 ∙ h),
      )
