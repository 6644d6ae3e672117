-- ===== src/Generations/Removal.antt =====
-- What `remove_generation` of obnamlib/fmt_ga/client.py does to the generations of a client, and which
-- chunks it returns.
use obnam.Prelude.{
  ℕ, ◌≡◌, refl, sym, ap, subst, ◌∙◌, Bool, true, false, not, ◌&&◌, ◌||◌, none, List, [], ◌∷◌, ◌++◌,
  arith, inl, inr, map,
}
use obnam.Prelude.Tests.{if◌then◌else◌, nat_beq, nat_beq_iff, Bool-cases}
use obnam.Prelude.Keys.{◌==◌, nat_eq, list_eq, contains, beq_refl, eq_of_beq}
use obnam.Prelude.Lists.{All}
use obnam.Prelude.Sorted.{Distinct}
use obnam.Prelude.Result.{Result, ok, raise, ◌>>=◌, bind-ok, ok-injective}
use obnam.Bag.ObjectId.{Text}
use obnam.Directories.Directory
use obnam.Generations.FileMetadata.{FileMetadata}
use obnam.Generations.Generation.{
  Generation, remaining_numbers, without_generation, has_generation, get_generation,
  update_generation, opened, files_of,
}
use obnam.Generations.Client.{
  ClientStore, Client, lift, load_data, lookup_generation, generation_does_not_exist, on_files,
}
use obnam.Generations.RemoveGeneration.{
  difference, get_generation_chunk_ids, chunk_ids_used_by, chunk_ids_in, remove_generation,
}
use obnam.Generations.ReadAgain.{
  dict_of, any_has, found_of_ok, with_files, read-Kept, read-again, chunk_ids_used_by-ReadInTurn,
}
use obnam.Generations.KeySets.{get_generation-number}
use obnam.Generations.Numbers.{load_data-loaded, load_data_again}

difference-head :
    (y : Text) (xs ys : List Text)
    → contains (difference xs ys) y ≡ (contains xs y && not (contains ys y))
    → contains (difference (y ∷ xs) ys) y ≡ not (contains ys y)
unfolding difference
difference-head y xs ys h = ground (arith, h, beq_refl y)

contains-difference :
    (xs ys : List Text) (x : Text)
    → contains (difference xs ys) x ≡ (contains xs x && not (contains ys x))
unfolding difference
contains-difference [] ys x = refl
contains-difference (y ∷ xs) ys x = elim (Bool-cases (x == y)) [
  | inl c ↦
      let e = eq_of_beq x y c in
      ap (λ z. contains (difference (z ∷ xs) ys) x) (sym e)
      ∙ difference-head x xs ys (contains-difference xs ys x)
      ∙ ground (arith, c)
  | inr c ↦ ground (arith, c, contains-difference xs ys x)
]

All-missing : (x : Text) (xs : List Text) → contains xs x ≡ false → All (λ y. (x == y) ≡ false) xs
All-missing x [] h = tt
All-missing x (y ∷ xs) h = (ground (arith, h), All-missing x xs (ground (arith, h)))

Distinct-difference : (xs ys : List Text) → Distinct (difference xs ys)
unfolding difference
Distinct-difference [] ys = tt
Distinct-difference (x ∷ xs) ys =
    go (contains ys x) (contains (difference xs ys) x) refl (Distinct-difference xs ys)
  where
    go :
        (b d : Bool)
        → contains (difference xs ys) x ≡ d
        → Distinct (difference xs ys)
        → Distinct (if b || d then difference xs ys else x ∷ difference xs ys)
    go true d h k = k
    go false true h k = k
    go false false h k = (All-missing x (difference xs ys) h, k)

-- the numbers that are left, from the numbers
abbrev kept_numbers : ℕ → List ℕ → List ℕ
kept_numbers n [] = []
kept_numbers n (m ∷ ms) = let rest = kept_numbers n ms in if nat_beq m n then rest else m ∷ rest

All-kept_numbers : (P : ℕ → Type 0) (n : ℕ) (ms : List ℕ) → All P ms → All P (kept_numbers n ms)
All-kept_numbers P n [] h = tt
All-kept_numbers P n (m ∷ ms) h = elim (Bool-cases (nat_beq m n)) [
  | inl q ↦ rw q (All-kept_numbers P n ms h.1)
  | inr q ↦ rw q (h.0, All-kept_numbers P n ms h.1)
]

Distinct-kept_numbers : (n : ℕ) (ms : List ℕ) → Distinct ms → Distinct (kept_numbers n ms)
Distinct-kept_numbers n [] h = tt
Distinct-kept_numbers n (m ∷ ms) h = elim (Bool-cases (nat_beq m n)) [
  | inl q ↦ rw q (Distinct-kept_numbers n ms h.1)
  | inr q ↦
      rw q (All-kept_numbers (λ k. nat_beq m k ≡ false) n ms h.0, Distinct-kept_numbers n ms h.1)
]

module _ {V : Type 0} where
  abbrev numbers : List (Generation V) → List ℕ
  numbers gs = map (λ g. g.gen_number) gs

  numbers-update_generation :
      (n : ℕ) (new : Generation V) (gs : List (Generation V))
      → new.gen_number ≡ n
      → numbers (update_generation n new gs) ≡ numbers gs
  unfolding update_generation
  numbers-update_generation n new [] h = refl
  numbers-update_generation n new (g ∷ gs) h =
      ground (arith, h, numbers-update_generation n new gs h, nat_beq_iff g.gen_number n)

  remaining_numbers-numbers :
      (n : ℕ) (gs : List (Generation V)) → remaining_numbers n gs ≡ kept_numbers n (numbers gs)
  unfolding remaining_numbers
  remaining_numbers-numbers n [] = refl
  remaining_numbers-numbers n (g ∷ gs) = ground (arith, remaining_numbers-numbers n gs)

  Distinct-remaining_numbers :
      (n : ℕ) (gs : List (Generation V)) → Distinct (numbers gs) → Distinct (remaining_numbers n gs)
  Distinct-remaining_numbers n gs h =
      subst (λ ns. Distinct ns) (sym (remaining_numbers-numbers n gs))
        (Distinct-kept_numbers n (numbers gs) h)

  contains-remaining_numbers :
      (n m : ℕ) (gs : List (Generation V))
      → contains (remaining_numbers n gs) m ≡ true
      → (has_generation m gs ≡ true) × (nat_beq n m ≡ false)
  unfolding remaining_numbers has_generation
  contains-remaining_numbers n m [] h = absurd (ground (arith, h))
  contains-remaining_numbers n m (g ∷ gs) h = ground (
    arith,
    h,
    contains-remaining_numbers n m gs,
    nat_beq_iff g.gen_number n,
    nat_beq_iff n m,
    nat_beq_iff m g.gen_number,
    nat_beq_iff g.gen_number m,
  )

  numbers-without_generation :
      (n : ℕ) (gs : List (Generation V))
      → numbers (without_generation n gs) ≡ kept_numbers n (numbers gs)
  unfolding without_generation
  numbers-without_generation n [] = refl
  numbers-without_generation n (g ∷ gs) = ground (arith, numbers-without_generation n gs)

  get_generation-without_generation :
      (m n : ℕ) (gs : List (Generation V))
      → get_generation m (without_generation n gs)
        ≡ (if nat_beq n m then none else get_generation m gs)
  unfolding get_generation without_generation
  get_generation-without_generation m n [] = ground arith
  get_generation-without_generation m n (g ∷ gs) =
      ground (arith, get_generation-without_generation m n gs)

module _ {V St : Type 0} (S : ClientStore V St) where
  -- an operation on files keeps the numbers of the generations
  numbers-on_files :
      {A : Type 0} (n : ℕ)
      (operation : FileMetadata V St → Result Directory.Error (A × FileMetadata V St))
      → (c c' : Client V St) (a : A) → on_files S n operation c ≡ ok (a, c')
      → (numbers c'.generations ≡ numbers (load_data S c).generations) × (c'.data_is_loaded ≡ true)
  unfolding on_files lookup_generation
  numbers-on_files n operation c c' a h =
      let c1 = load_data S c in
      let (g, e, k) =
        bind-ok (lookup_generation S n c1)
          (λ g.
            lift (operation (opened c1.store g.files)) >>= λ r. ok (r.0, with_files S c1 n g r.1))
          (a, c') h in
      let (r, e', k') =
        bind-ok (lift (operation (opened c1.store g.files)))
          (λ r. ok (r.0, with_files S c1 n g r.1)) (a, c') k in
      let same : with_files S c1 n g r.1 ≡ c' =
        ap (λ x. x.1) (ok-injective (r.0, with_files S c1 n g r.1) (a, c') k') in
      let number =
        get_generation-number S n g c1.generations
          (found_of_ok S n g (get_generation n c1.generations) e) in
      (
        ap (λ (c : Client V St). numbers c.generations) (sym same)
            ∙ numbers-update_generation n (record g { files = files_of r.1 }) c1.generations number,
        ap (λ (c : Client V St). c.data_is_loaded) (sym same) ∙ load_data-loaded S c,
      )

  loaded_numbers :
      (c : Client V St)
      → c.data_is_loaded ≡ true
      → numbers (load_data S c).generations ≡ numbers c.generations
  loaded_numbers c l = ap (λ (k : Client V St). numbers k.generations) (load_data_again S c l)

  numbers-get_generation_chunk_ids :
      (fuel n : ℕ) (c c' : Client V St) (ids : List Text)
      → c.data_is_loaded ≡ true
      → get_generation_chunk_ids S fuel c n ≡ ok (ids, c')
      → (numbers c'.generations ≡ numbers c.generations) × (c'.data_is_loaded ≡ true)
  unfolding get_generation_chunk_ids
  numbers-get_generation_chunk_ids fuel n c c' ids l h =
      let (e, l') = numbers-on_files n (chunk_ids_in S fuel) c c' ids h in
      (e ∙ loaded_numbers c l, l')

  -- reading the chunks of generations keeps their numbers
  numbers-chunk_ids_used_by :
      (fuel : ℕ) (ns : List ℕ) (c c' : Client V St) (ids : List Text)
      → c.data_is_loaded ≡ true
      → chunk_ids_used_by S fuel ns c ≡ ok (ids, c')
      → (numbers c'.generations ≡ numbers c.generations) × (c'.data_is_loaded ≡ true)
  unfolding chunk_ids_used_by
  numbers-chunk_ids_used_by fuel [] c c' ids l h =
      let e : c ≡ c' = ap (λ x. x.1) (ok-injective ([], c) (ids, c') h) in
      (
        ap (λ (k : Client V St). numbers k.generations) (sym e),
        ap (λ (k : Client V St). k.data_is_loaded) (sym e) ∙ l,
      )
  numbers-chunk_ids_used_by fuel (n ∷ ns) c c' ids l h =
      let ((got, c1), e, k) =
        bind-ok (get_generation_chunk_ids S fuel c n)
          (λ r. chunk_ids_used_by S fuel ns r.1 >>= λ s. ok (r.0 ++ s.0, s.1)) (ids, c') h in
      let ((others, c2), e', k') =
        bind-ok (chunk_ids_used_by S fuel ns c1) (λ s. ok (got ++ s.0, s.1)) (ids, c') k in
      let (f1, l1) = numbers-get_generation_chunk_ids fuel n c c1 got l e in
      let (f2, l2) = numbers-chunk_ids_used_by fuel ns c1 c2 others l1 e' in
      let same : c2 ≡ c' = ap (λ x. x.1) (ok-injective (got ++ others, c2) (ids, c') k') in
      (
        ap (λ (k : Client V St). numbers k.generations) (sym same) ∙ f2 ∙ f1,
        ap (λ (k : Client V St). k.data_is_loaded) (sym same) ∙ l2,
      )

  -- What a client is once a generation is removed, where `chunks` are the chunks of each generation.
  pub record RemovedGeneration (n : ℕ) (c : Client V St) (chunks : ℕ → List Text) (ids : List Text)
      (c' : Client V St) : Type 0 where
    pub returned :
        (x : Text)
        → contains ids x ≡ (
            contains (chunks n) x
            && not (any_has chunks (remaining_numbers n (load_data S c).generations) x))
    pub distinct : Distinct ids
    pub lookup :
        (m : ℕ)
        → dict_of (get_generation m c'.generations)
          ≡ (if nat_beq n m then none else dict_of (get_generation m (load_data S c).generations))
    pub left :
        map (λ g. g.gen_number) c'.generations ≡ remaining_numbers n (load_data S c).generations

  remove_generation-if :
      (fuel n : ℕ) (c : Client V St)
      → has_generation n (load_data S c).generations ≡ true
      → remove_generation S fuel c n ≡ (
          get_generation_chunk_ids S fuel (load_data S c) n >>= λ r.
          chunk_ids_used_by S fuel (remaining_numbers n (load_data S c).generations) r.1 >>= λ s.
          ok
            (difference r.0 s.0, record s.1 { generations = without_generation n s.1.generations }))
  unfolding remove_generation
  remove_generation-if fuel n c h = ground (arith, h)

  pub remove_generation-missing :
      (fuel n : ℕ) (c : Client V St)
      → has_generation n (load_data S c).generations ≡ false
      → remove_generation S fuel c n ≡ raise (generation_does_not_exist n)
  unfolding remove_generation
  remove_generation-missing fuel n c h = ground (arith, h)

  lookup-without :
      (m n : ℕ) (gs hs : List (Generation V))
      → dict_of (get_generation m gs) ≡ dict_of (get_generation m hs)
      → dict_of (get_generation m (without_generation n gs))
        ≡ (if nat_beq n m then none else dict_of (get_generation m hs))
  lookup-without m n gs hs h =
      ap dict_of (get_generation-without_generation m n gs) ∙ go (nat_beq n m)
    where
      go :
          (b : Bool)
          → dict_of (if b then none else get_generation m gs)
            ≡ (if b then none else dict_of (get_generation m hs))
      go true = refl
      go false = h

  -- If each generation of a client can be read, and they have distinct numbers, then removing one of
  -- them succeeds. It returns just the chunks that the generation has and none of the others has, each
  -- once. The generation is gone; the other numbers stay in their order, and find generations with the
  -- keys and the root that they had.
  pub remove_generation-RemovedGeneration :
      (fuel n : ℕ) (c : Client V St) (chunks : ℕ → List Text)
      → has_generation n (load_data S c).generations ≡ true
      → Distinct (map (λ g. g.gen_number) (load_data S c).generations)
      → ((m : ℕ)
          → has_generation m (load_data S c).generations ≡ true
          → (k : Client V St) × (get_generation_chunk_ids S fuel (load_data S c) m
              ≡ ok (chunks m, k)))
      → (ids : List Text) × (c' : Client V St) × (remove_generation S fuel c n ≡ ok (ids, c'))
        × RemovedGeneration n c chunks ids c'
  remove_generation-RemovedGeneration fuel n c chunks h d r =
      let c1 = load_data S c in
      let l1 = load_data-loaded S c in
      let ns = remaining_numbers n c1.generations in
      let (c2, e) = r n h in
      let K = read-Kept S fuel n c1 c2 (chunks n) l1 e in
      let (remaining, c3, U) =
        chunk_ids_used_by-ReadInTurn S fuel ns chunks c2
          (Distinct-remaining_numbers n c1.generations d) K.loaded
          (λ m g.
            let (there, apart) = contains-remaining_numbers n m c1.generations g in
            let (k, f) = r m there in
            read-again S fuel m c1 c2 k (chunks m) l1 K.loaded K.store (K.others m apart) f) in
      let (e2, l2) = numbers-get_generation_chunk_ids fuel n c1 c2 (chunks n) l1 e in
      let (e3, l3) = numbers-chunk_ids_used_by fuel ns c2 c3 remaining l2 U.returns in
      (
        difference (chunks n) remaining,
        record c3 { generations = without_generation n c3.generations },
        remove_generation-if fuel n c h
            ∙ ap
                (λ x. x >>= λ r. chunk_ids_used_by S fuel ns r.1 >>= λ s. ok (
                  difference r.0 s.0,
                  record s.1 { generations = without_generation n s.1.generations },
                ))
                e
            ∙ ap
                (λ x. x >>= λ s. ok (
                  difference (chunks n) s.0,
                  record s.1 { generations = without_generation n s.1.generations },
                ))
                U.returns,
        record {
          returned = λ x.
              contains-difference (chunks n) remaining x
              ∙ ap (λ b. contains (chunks n) x && not b) (U.all x);
          distinct = Distinct-difference (chunks n) remaining;
          lookup = λ m. lookup-without m n c3.generations c1.generations (U.dicts m ∙ K.dicts m);
          left =
              numbers-without_generation n c3.generations
              ∙ ap (kept_numbers n) (e3 ∙ e2)
              ∙ sym (remaining_numbers-numbers n c1.generations);
        },
      )
