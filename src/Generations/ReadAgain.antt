-- ===== src/Generations/ReadAgain.antt =====
-- What reading the chunks of a generation, `get_generation_chunk_ids` of obnamlib/fmt_ga/client.py,
-- keeps of a client, so that other generations read the same before and after it.
use obnam.Prelude.{
  ℕ, ◌≡◌, refl, sym, ap, subst, ◌∙◌, Bool, true, false, ◌||◌, Option, none, some, List, [], ◌∷◌,
  ◌++◌, arith, inl, inr,
}
use obnam.Prelude.Tests.{nat_beq, nat_beq_iff, Bool-cases}
use obnam.Prelude.Lists.{All}
use obnam.Prelude.Keys.{nat_eq, list_eq, contains}
use obnam.Prelude.Sorted.{Distinct, contains-append}
use obnam.Prelude.Result.{Result, ok, ◌>>=◌, bind-ok, ok-injective}
use obnam.Bag.ObjectId.{Text}
use obnam.Directories.Directory
use obnam.Generations.FileMetadata.{FileMetadata}
use obnam.Generations.Generation.{
  Generation, GenerationDict, as_dict, get_generation, update_generation, opened, files_of,
}
use obnam.Generations.Client.{
  ClientStore, Client, ClientError, lift, lookup_generation, generation_or_error, on_files,
}
use obnam.Generations.RemoveGeneration.{get_generation_chunk_ids, chunk_ids_used_by, chunk_ids_in}
use obnam.Generations.KeySets.{get_generation-number, get_generation-changed}
use obnam.Generations.Numbers.{load_data_again}
use obnam.Generations.Saved.{lift-ok}
use obnam.Generations.ChunkReads.{chunk_ids_in-store}

module _ {V : Type 0} where
  -- the number, the keys and the root of a generation that was found
  abbrev pub dict_of : Option (Generation V) → Option GenerationDict
  dict_of none = none
  dict_of (some g) = some (as_dict g)

-- whether one of some generations has a chunk
abbrev pub any_has : (ℕ → List Text) → List ℕ → Text → Bool
any_has chunks [] x = false
any_has chunks (n ∷ ns) x = contains (chunks n) x || any_has chunks ns x

module _ {V St : Type 0} (S : ClientStore V St) where
  pub found_of_ok :
      (n : ℕ) (g : Generation V) (o : Option (Generation V))
      → generation_or_error S n o ≡ ok g
      → o ≡ some g
  found_of_ok n g none h = absurd (ground (arith, h))
  found_of_ok n g (some k) h = ap (λ g. some g) (ok-injective k g h)

  -- a client with the files that an operation leaves
  abbrev pub with_files : Client V St → ℕ → Generation V → FileMetadata V St → Client V St
  with_files c n g fm = record c {
    store = fm.tree.store;
    generations = update_generation n (record g { files = files_of fm }) c.generations;
  }

  -- the steps of a read
  record ReadSteps (fuel n : ℕ) (c c' : Client V St) (ids : List Text) : Type 0 where
    g : Generation V
    fm : FileMetadata V St
    found : get_generation n c.generations ≡ some g
    read : chunk_ids_in S fuel (opened c.store g.files) ≡ ok (ids, fm)
    after : with_files c n g fm ≡ c'

  read-ReadSteps :
      (fuel n : ℕ) (c c' : Client V St) (ids : List Text)
      → c.data_is_loaded ≡ true
      → get_generation_chunk_ids S fuel c n ≡ ok (ids, c')
      → ReadSteps fuel n c c' ids
  unfolding get_generation_chunk_ids on_files lookup_generation
  read-ReadSteps fuel n c c' ids l h =
      let go : Client V St → Result ClientError (List Text × Client V St) = λ c.
        lookup_generation S n c >>= λ g.
        lift (chunk_ids_in S fuel (opened c.store g.files)) >>= λ r.
        ok (r.0, with_files c n g r.1) in
      let h' : go c ≡ ok (ids, c') = ap go (sym (load_data_again S c l)) ∙ h in
      let (g, e, k) =
        bind-ok (lookup_generation S n c)
          (λ g. lift (chunk_ids_in S fuel (opened c.store g.files)) >>= λ r.
            ok (r.0, with_files c n g r.1))
          (ids, c') h' in
      let (r, e', k') =
        bind-ok (lift (chunk_ids_in S fuel (opened c.store g.files)))
          (λ r. ok (r.0, with_files c n g r.1)) (ids, c') k in
      let same = ok-injective (r.0, with_files c n g r.1) (ids, c') k' in
      record {
        g = g;
        fm = r.1;
        found = found_of_ok n g (get_generation n c.generations) e;
        read =
            lift-ok S (chunk_ids_in S fuel (opened c.store g.files)) r e'
            ∙ ap (λ i. ok (i, r.1)) (ap (λ x. x.0) same);
        after = ap (λ x. x.1) same;
      }

  read_of_steps :
      (fuel n : ℕ) (c : Client V St) (g : Generation V) (fm : FileMetadata V St) (ids : List Text)
      → c.data_is_loaded ≡ true
      → get_generation n c.generations ≡ some g
      → chunk_ids_in S fuel (opened c.store g.files) ≡ ok (ids, fm)
      → get_generation_chunk_ids S fuel c n ≡ ok (ids, with_files c n g fm)
  unfolding get_generation_chunk_ids on_files lookup_generation
  read_of_steps fuel n c g fm ids l f r =
      let go : Client V St → Result ClientError (List Text × Client V St) = λ c.
        lookup_generation S n c >>= λ g.
        lift (chunk_ids_in S fuel (opened c.store g.files)) >>= λ r.
        ok (r.0, with_files c n g r.1) in
      ap go (load_data_again S c l)
      ∙ ap
          (λ (o : Option (Generation V)). generation_or_error S n o >>= λ g.
            lift (chunk_ids_in S fuel (opened c.store g.files)) >>= λ r.
            ok (r.0, with_files c n g r.1))
          f
      ∙ ap
          (λ (x : Result Directory.Error (List Text × FileMetadata V St)).
            let y : Result ClientError (List Text × FileMetadata V St) = lift x in
            y >>= λ r. ok (r.0, with_files c n g r.1))
          r

  -- a read leaves the store, and what is stored of each generation; it may fill the cache of its own
  pub record Kept (fuel n : ℕ) (c c' : Client V St) : Type 0 where
    pub store : c'.store ≡ c.store
    pub loaded : c'.data_is_loaded ≡ true
    pub others :
        (m : ℕ)
        → nat_beq n m ≡ false
        → get_generation m c'.generations ≡ get_generation m c.generations
    pub dicts :
        (m : ℕ)
        → dict_of (get_generation m c'.generations) ≡ dict_of (get_generation m c.generations)

  dict_at :
      (m n : ℕ) (g new : Generation V) (gs : List (Generation V))
      → get_generation n gs ≡ some g
      → new.gen_number ≡ n
      → as_dict new ≡ as_dict g
      → dict_of (get_generation m (update_generation n new gs)) ≡ dict_of (get_generation m gs)
  dict_at m n g new gs f k d = elim (Bool-cases (nat_beq n m)) [
    | inl q ↦
        let e : n ≡ m = (nat_beq_iff n m).0 q in
        let h : get_generation m (update_generation n new gs) ≡ some new =
          get_generation-changed S m n g new gs f k ∙ rw q in
        ap dict_of h ∙ ap (λ x. some x) d ∙ ap dict_of (sym f ∙ ap (λ i. get_generation i gs) e)
    | inr q ↦
        let h : get_generation m (update_generation n new gs) ≡ get_generation m gs =
          get_generation-changed S m n g new gs f k ∙ rw q in
        ap dict_of h
  ]

  pub read-Kept :
      (fuel n : ℕ) (c c' : Client V St) (ids : List Text)
      → c.data_is_loaded ≡ true
      → get_generation_chunk_ids S fuel c n ≡ ok (ids, c')
      → Kept fuel n c c'
  read-Kept fuel n c c' ids l h =
      let s = read-ReadSteps fuel n c c' ids l h in
      let new : Generation V = record s.g { files = files_of s.fm } in
      let number = get_generation-number S n s.g c.generations s.found in
      subst (Kept fuel n c) s.after (record {
        store = chunk_ids_in-store S fuel (opened c.store s.g.files) s.fm ids s.read;
        loaded = l;
        others = λ m q. get_generation-changed S m n s.g new c.generations s.found number ∙ rw q;
        dicts = λ m. dict_at m n s.g new c.generations s.found number refl;
      })

  -- a generation reads the same from a client with the same store and the same generation
  pub read-again :
      (fuel n : ℕ) (c d k : Client V St) (ids : List Text)
      → c.data_is_loaded ≡ true
      → d.data_is_loaded ≡ true
      → d.store ≡ c.store
      → get_generation n d.generations ≡ get_generation n c.generations
      → get_generation_chunk_ids S fuel c n ≡ ok (ids, k)
      → (k' : Client V St) × (get_generation_chunk_ids S fuel d n ≡ ok (ids, k'))
  read-again fuel n c d k ids l l' e f h =
      let s = read-ReadSteps fuel n c k ids l h in
      (
        with_files d n s.g s.fm,
        read_of_steps fuel n d s.g s.fm ids l' (f ∙ s.found)
            (ap (λ st. chunk_ids_in S fuel (opened st s.g.files)) e ∙ s.read),
      )

  pub record ReadInTurn (fuel : ℕ) (ns : List ℕ) (chunks : ℕ → List Text) (c : Client V St)
      (ids : List Text) (c' : Client V St) : Type 0 where
    pub returns : chunk_ids_used_by S fuel ns c ≡ ok (ids, c')
    pub all : (x : Text) → contains ids x ≡ any_has chunks ns x
    pub dicts :
        (m : ℕ)
        → dict_of (get_generation m c'.generations) ≡ dict_of (get_generation m c.generations)

  chunk_ids_used_by-cons :
      (fuel n : ℕ) (ns : List ℕ) (c c1 c2 : Client V St) (ids others : List Text)
      → get_generation_chunk_ids S fuel c n ≡ ok (ids, c1)
      → chunk_ids_used_by S fuel ns c1 ≡ ok (others, c2)
      → chunk_ids_used_by S fuel (n ∷ ns) c ≡ ok (ids ++ others, c2)
  unfolding chunk_ids_used_by
  chunk_ids_used_by-cons fuel n ns c c1 c2 ids others e f =
      ap (λ x. x >>= λ r. chunk_ids_used_by S fuel ns r.1 >>= λ s. ok (r.0 ++ s.0, s.1)) e
      ∙ ap (λ x. x >>= λ s. ok (ids ++ s.0, s.1)) f

  chunk_ids_used_by-nil : (fuel : ℕ) (c : Client V St) → chunk_ids_used_by S fuel [] c ≡ ok ([], c)
  unfolding chunk_ids_used_by
  chunk_ids_used_by-nil fuel c = refl

  not_among :
      (n m : ℕ) (ns : List ℕ)
      → All (λ k. nat_beq n k ≡ false) ns
      → contains ns m ≡ true
      → nat_beq n m ≡ false
  not_among n m [] h c = absurd (ground (arith, c))
  not_among n m (k ∷ ns) h c = elim (Bool-cases (nat_beq m k)) [
    | inl q ↦ ap (nat_beq n) ((nat_beq_iff m k).0 q) ∙ h.0
    | inr q ↦ not_among n m ns h.1 (ground (arith, c, q))
  ]

  -- If distinct generations can be read from a client one by one, they can be read one after the other.
  pub chunk_ids_used_by-ReadInTurn :
      (fuel : ℕ) (ns : List ℕ) (chunks : ℕ → List Text) (c : Client V St)
      → Distinct ns
      → c.data_is_loaded ≡ true
      → ((m : ℕ)
          → contains ns m ≡ true
          → (k : Client V St) × (get_generation_chunk_ids S fuel c m ≡ ok (chunks m, k)))
      → (ids : List Text) × (c' : Client V St) × ReadInTurn fuel ns chunks c ids c'
  chunk_ids_used_by-ReadInTurn fuel [] chunks c d l r =
      ([], c, record { returns = chunk_ids_used_by-nil fuel c; all = λ x. refl; dicts = λ m. refl })
  chunk_ids_used_by-ReadInTurn fuel (n ∷ ns) chunks c d l r =
      let (c1, e) = r n (ground (arith, nat_beq_iff n n)) in
      let K = read-Kept fuel n c c1 (chunks n) l e in
      let (others, c2, U) = chunk_ids_used_by-ReadInTurn fuel ns chunks c1 d.1 K.loaded (λ m h.
        let apart = not_among n m ns d.0 h in
        let (k, f) = r m (ground (arith, h)) in
        read-again fuel m c c1 k (chunks m) l K.loaded K.store (K.others m apart) f) in
      (
        chunks n ++ others,
        c2,
        record {
          returns = chunk_ids_used_by-cons fuel n ns c c1 c2 (chunks n) others e U.returns;
          all = λ x.
              contains-append (chunks n) others x ∙ ap (λ b. contains (chunks n) x || b) (U.all x);
          dicts = λ m. U.dicts m ∙ K.dicts m;
        },
      )
