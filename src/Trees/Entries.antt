-- ===== src/Trees/Entries.antt =====
-- Lemmas on the entries of a directory object, of which some have no object id yet.
use obnam.Prelude.{
  ◌≡◌, refl, sym, ap, ◌∙◌, Bool, true, false, Option, none, some, [], ◌∷◌, arith, inl, inr,
}
use obnam.Prelude.Tests.{if◌then◌else◌, Bool-cases}
use obnam.Prelude.Lists.{All, All-map}
use obnam.Prelude.Keys.{◌==◌, nat_eq, list_eq, beq_refl, eq_of_beq, contains}
use obnam.Prelude.Dict.{Dict, keys, get, put, get-put_self, get-put_other}
use obnam.Bag.ObjectId.{Text}

pub keys-put_present :
    (n : Text) (o : Option Text) (s : Dict Text (Option Text)) (v : Option Text)
    → get n s ≡ some o
    → keys (put n v s) ≡ keys s
unfolding get put
keys-put_present n o [] v h = absurd (ground (arith, h))
keys-put_present n o ((k, w) ∷ s) v h = elim (Bool-cases (k == n)) [
  | inl c ↦ ground (arith, c)
  | inr c ↦ ground (arith, c, keys-put_present n o s v (ground (arith, h, c)))
]

pub get-put_apart :
    (n k : Text) (v : Option Text) (s : Dict Text (Option Text))
    → (k == n) ≡ false
    → get k (put n v s) ≡ get k s
get-put_apart n k v s h = elim (Bool-cases (n == k)) [
  | inr c ↦ get-put_other n k v s c
  | inl c ↦ absurd (ground (arith, h, beq_refl k, ap (λ m. k == m) (eq_of_beq n k c)))
]

-- an entry that is still only in memory after another one was given its object id
pub pending-put :
    (n k i : Text) (s : Dict Text (Option Text))
    → get k (put n (some i) s) ≡ some none
    → get k s ≡ some none
pending-put n k i s h = elim (Bool-cases (n == k)) [
  | inr c ↦ sym (get-put_other n k (some i) s c) ∙ h
  | inl c ↦ absurd (ground (arith, h, get-put_self n k (some i) s c))
]

pub stored-put :
    (n k i j : Text) (s : Dict Text (Option Text))
    → get n s ≡ some none
    → get k s ≡ some (some j)
    → get k (put n (some i) s) ≡ some (some j)
stored-put n k i j s e h = elim (Bool-cases (n == k)) [
  | inr c ↦ get-put_other n k (some i) s c ∙ h
  | inl c ↦ absurd (ground (arith, e, h, ap (λ m. get m s) (eq_of_beq n k c)))
]

pub present-put :
    (n i k : Text) (s : Dict Text (Option Text))
    → (o : Option Text) × (get k s ≡ some o)
    → (o : Option Text) × (get k (put n (some i) s) ≡ some o)
present-put n i k s (o, h) = elim (Bool-cases (n == k)) [
  | inr c ↦ (o, get-put_other n k (some i) s c ∙ h)
  | inl c ↦ (some i, get-put_self n k (some i) s c)
]

pub present-keys :
    (s : Dict Text (Option Text)) → All (λ n. (o : Option Text) × (get n s ≡ some o)) (keys s)
unfolding get
present-keys [] = tt
present-keys ((k, v) ∷ s) = (
  (v, ground (arith, beq_refl k)),
  All-map (λ n. (o : Option Text) × (get n s ≡ some o))
      (λ n. (o : Option Text) × (get n ((k, v) ∷ s) ≡ some o)) (keys s)
      (λ n h. later n (k == n) h.0 h.1) (present-keys s),
)
  where
    later :
        (n : Text) (b : Bool) (o : Option Text)
        → get n s ≡ some o
        → (o : Option Text) × ((if b then some v else get n s) ≡ some o)
    later n true o h = (v, refl)
    later n false o h = (o, h)

pub contains-keys :
    (n : Text) (o : Option Text) (s : Dict Text (Option Text))
    → get n s ≡ some o
    → contains (keys s) n ≡ true
unfolding get
contains-keys n o [] h = absurd (ground (arith, h))
contains-keys n o ((k, v) ∷ s) h = elim (Bool-cases (k == n)) [
  | inl c ↦ ground (arith, beq_refl n, ap (λ m. n == m) (eq_of_beq k n c))
  | inr c ↦ ground (arith, contains-keys n o s (ground (arith, h, c)))
]
