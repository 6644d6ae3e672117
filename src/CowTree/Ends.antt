-- ===== src/CowTree/Ends.antt =====
-- The first and the last of ascending keys bound the others.
use Prim.Native.Nat.{zero, suc}
use obnam.Prelude.{ℕ, ◌≡◌, refl, true, false, some, List, [], ◌∷◌}
use obnam.Prelude.Lists.{All, All-map, take, drop}
use obnam.Prelude.Keys.{Ord}
use obnam.Prelude.Sorted.{Ascending}
use obnam.Prelude.Result.{ok}
use obnam.CowTree.LeafList.{last}
use obnam.CowTree.Tree.{ends}

module _ {K : Type 0} ⦃o : Ord K⦄ where
  pub record Ends (ks : List K) : Type 1 where
    pub first : K
    pub last_one : K
    pub eq : ends ks ≡ ok (first, last_one)
    pub low : All (λ x. o.le first x ≡ true) ks
    pub high : All (λ x. o.le x last_one ≡ true) ks
    pub member : (P : K → Type 0) → All P ks → P first × P last_one

  le_of_lt : (x y : K) → o.le y x ≡ false → o.le x y ≡ true
  le_of_lt x y h = o.le_total y x h

  -- the last of ascending keys, which is no smaller than any of them
  pub record Top (ks : List K) : Type 1 where
    pub top : K
    pub eq : last ks ≡ some top
    pub high : All (λ x. o.le x top ≡ true) ks
    pub member : (P : K → Type 0) → All P ks → P top

  Top-of : (k : K) (ks : List K) → Ascending (k ∷ ks) → Top (k ∷ ks)
  Top-of k [] h = record { top = k; eq = refl; high = (o.le_refl k, tt); member = λ P p. p.0 }
  Top-of k (x ∷ ks) h =
      let r = Top-of x ks h.1 in
      record {
        top = r.top;
        eq = r.eq;
        high = (le_of_lt k r.top (r.member (λ y. o.le y k ≡ false) h.0), r.high);
        member = λ P p. r.member P p.1;
      }

  pub ends_of : (k : K) (ks : List K) → Ascending (k ∷ ks) → Ends (k ∷ ks)
  ends_of k ks h =
      let r = Top-of k ks h in
      record {
        first = k;
        last_one = r.top;
        eq = rw (r.eq, ends);
        low = (
          o.le_refl k,
          All-map (λ x. o.le x k ≡ false) (λ x. o.le k x ≡ true) ks (λ x. le_of_lt k x) h.0,
        );
        high = r.high;
        member = λ P p. (p.0, r.member P p);
      }

  pub All-take {κ} : (P : K → Type κ) (n : ℕ) (ks : List K) → All P ks → All P (take n ks)
  All-take P zero ks h = tt
  All-take P (suc n) [] h = tt
  All-take P (suc n) (k ∷ ks) h = (h.0, All-take P n ks h.1)

  pub All-drop {κ} : (P : K → Type κ) (n : ℕ) (ks : List K) → All P ks → All P (drop n ks)
  All-drop P zero ks h = h
  All-drop P (suc n) [] h = tt
  All-drop P (suc n) (k ∷ ks) h = All-drop P n ks h.1

  pub take-Ascending : (n : ℕ) (ks : List K) → Ascending ks → Ascending (take n ks)
  take-Ascending zero ks h = tt
  take-Ascending (suc n) [] h = tt
  take-Ascending (suc n) (k ∷ ks) h =
      (All-take (λ y. o.le y k ≡ false) n ks h.0, take-Ascending n ks h.1)

  pub drop-Ascending : (n : ℕ) (ks : List K) → Ascending ks → Ascending (drop n ks)
  drop-Ascending zero ks h = h
  drop-Ascending (suc n) [] h = tt
  drop-Ascending (suc n) (k ∷ ks) h = drop-Ascending n ks h.1

  -- Each key of the first part is below each key of the second.
  pub take-lt-drop :
      (n : ℕ) (ks : List K)
      → Ascending ks
      → All (λ x. All (λ y. o.le y x ≡ false) (drop n ks)) (take n ks)
  take-lt-drop zero ks h = tt
  take-lt-drop (suc n) [] h = tt
  take-lt-drop (suc n) (k ∷ ks) h =
      (All-drop (λ y. o.le y k ≡ false) n ks h.0, take-lt-drop n ks h.1)
