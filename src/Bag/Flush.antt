-- ===== src/Bag/Flush.antt =====
-- `flush`, and what a store with an open bag reads as.
use obnam.Prelude.{ℕ, ◌≡◌, refl, sym, ap, subst, ◌∙◌, false, none, some, arith, inl, inr}
use obnam.Prelude.Tests.{if◌then◌else◌, nat_beq, nat_beq_iff, Bool-cases, Option-cases}
use obnam.Prelude.Keys.{nat_eq}
use obnam.Bag.Bag.{Bag, number}
use obnam.Bag.BlobStore.{BagStore, BlobStore, open_bag, flush}
use obnam.Bag.Reads.{
  Laws, IsValid, OpenBag, OpenOk, Holds, bag_at, bag_at_open, bag_at_closed, blobs_of,
}

module _ {B St : Type 0} (S : BagStore B St) where
  open_bag-OpenBag :
      (st : St) (bag : Bag B) (o : OpenBag S st bag) (n : ℕ)
      → open_bag n (some bag) ≡ (if nat_beq n o.id then some bag else none)
  unfolding open_bag
  open_bag-OpenBag st bag o n = ground (arith, o.filled, o.numbered)

  -- a store with an open bag
  pub bag_at-OpenBag :
      (s : BlobStore B St) (bag : Bag B) (o : OpenBag S s.bag_store bag) (n : ℕ)
      → s.bag ≡ some bag
      → bag_at S s n
        ≡ (if nat_beq n o.id then some bag.blobs else blobs_of (S.get_bag s.bag_store (number n)))
  bag_at-OpenBag s bag o n e =
      let e' = ap (open_bag n) e ∙ open_bag-OpenBag s.bag_store bag o n in
      elim (Bool-cases (nat_beq n o.id)) [
        | inl c ↦ rw c (bag_at_open S s n bag (e' ∙ rw c))
        | inr c ↦ rw c (bag_at_closed S s n (e' ∙ rw c))
      ]

  -- a store without one
  pub bag_at-none :
      (s : BlobStore B St) (n : ℕ)
      → s.bag ≡ none
      → bag_at S s n ≡ blobs_of (S.get_bag s.bag_store (number n))
  unfolding open_bag
  bag_at-none s n e = bag_at_closed S s n (ap (open_bag n) e)

  nat_beq_symm : (n m : ℕ) → nat_beq n m ≡ nat_beq m n
  nat_beq_symm n m = ground arith

  module _ (L : Laws S) where
    Holds-put :
        (st : St) (bag : Bag B) (o : OpenBag S st bag) (n i : ℕ) (x : B)
        → L.IsValid st
        → Holds S st n i x
        → Holds S (S.put_bag st (number o.id) bag) n i x
    Holds-put st bag o n i x v h =
        let ne : nat_beq o.id n ≡ false =
          ground
            (arith, nat_beq_iff o.id n, o.fresh, h.stored, ap (λ k. S.get_bag st (number k))) in
        record { bag = h.bag; stored = L.get-put_ne st o.id n bag v ne ∙ h.stored; there = h.there }

    flushed : BlobStore B St → Bag B → ℕ → BlobStore B St
    flushed s bag n = record s { bag_store = S.put_bag s.bag_store (number n) bag; bag = none }

    flush-OpenBag :
        (s : BlobStore B St) (bag : Bag B) (o : OpenBag S s.bag_store bag)
        → s.bag ≡ some bag
        → flush S s ≡ flushed s bag o.id
    unfolding flush flushed
    flush-OpenBag s bag o e = ground (arith, e, o.numbered)

    flush-none : (s : BlobStore B St) → s.bag ≡ none → flush S s ≡ s
    unfolding flush
    flush-none s e = ground (arith, e)

    flushed-IsValid :
        (s : BlobStore B St) (bag : Bag B) (o : OpenBag S s.bag_store bag)
        → IsValid S L s
        → IsValid S L (flushed s bag o.id)
    unfolding flushed
    flushed-IsValid s bag o v = record {
      store_valid = L.put-IsValid s.bag_store (number o.id) bag v.store_valid;
      open_ok = tt;
      cache_ok = λ n i x e. Holds-put s.bag_store bag o n i x v.store_valid (v.cache_ok n i x e);
    }

    flushed-bag_at :
        (s : BlobStore B St) (bag : Bag B) (o : OpenBag S s.bag_store bag) (m : ℕ)
        → L.IsValid s.bag_store
        → s.bag ≡ some bag
        → bag_at S (flushed s bag o.id) m ≡ bag_at S s m
    unfolding flushed
    flushed-bag_at s bag o m v e = elim (Bool-cases (nat_beq m o.id)) [
      | inl c ↦
          let q : m ≡ o.id = (nat_beq_iff m o.id).0 c in
          bag_at-none (flushed s bag o.id) m refl
          ∙ ap blobs_of (
              ap (λ k. S.get_bag (S.put_bag s.bag_store (number o.id) bag) (number k)) q
              ∙ L.get-put_self s.bag_store (number o.id) bag v o.numbered)
          ∙ sym (bag_at-OpenBag s bag o m e ∙ rw c)
      | inr c ↦
          bag_at-none (flushed s bag o.id) m refl
          ∙ ap blobs_of (L.get-put_ne s.bag_store o.id m bag v (nat_beq_symm o.id m ∙ c))
          ∙ sym (bag_at-OpenBag s bag o m e ∙ rw c)
    ]

    -- what holds of a flush
    pub record Flushed (s s' : BlobStore B St) : Type 0 where
      pub valid : IsValid S L s'
      pub closed : s'.bag ≡ none
      pub same : (m : ℕ) → bag_at S s' m ≡ bag_at S s m

    OpenOk-at :
        (s : BlobStore B St) (bag : Bag B)
        → s.bag ≡ some bag
        → OpenOk S s.bag_store s.bag
        → OpenBag S s.bag_store bag
    OpenOk-at s bag e o = subst (OpenOk S s.bag_store) e o

    -- After a flush no bag is open, and every bag reads as before.
    pub flush-Flushed : (s : BlobStore B St) → IsValid S L s → Flushed s (flush S s)
    flush-Flushed s v = elim (Option-cases s.bag) [
      | inl e ↦ rw (flush-none s e) (record { valid = v; closed = e; same = λ m. refl })
      | inr (bag, e) ↦
          let o = OpenOk-at s bag e v.open_ok in
          rw (flush-OpenBag s bag o e) (record {
            valid = flushed-IsValid s bag o v;
            closed = unfold flushed in refl;
            same = λ m. flushed-bag_at s bag o m v.store_valid e;
          })
    ]
