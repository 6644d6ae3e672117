-- ===== src/Generations/Numbers.antt =====
-- The numbers of a client's generations, and what `create_generation` does to the generations.
use obnam.Prelude.{
  ℕ, ◌+◌, ◌<◌, ◌≤◌, ◌≡◌, refl, ap, ◌∙◌, Bool, true, false, Option, none, some, List, [], ◌∷◌, ◌++◌,
  arith, inl, inr,
}
use obnam.Prelude.Tests.{if◌then◌else◌, nat_beq, Bool-cases}
use obnam.Prelude.Keys.{nat_eq}
use obnam.Prelude.Dict.{get, put, get-put}
use obnam.Prelude.Result.{ok, raise}
use obnam.Generations.Generation.{
  Generation, Keys, KeyValue, GenKey, number, started, ended, rank, get_key, set_key,
  get_generation, get_latest,
}
use obnam.Generations.Client.{
  ClientStore, Client, ClientDict, generation_unfinished, load_data, loaded_from, next_generation,
  is_finished, create_generation,
}

module _ {V : Type 0} where
  -- numbers that ascend, the first one above another number
  abbrev pub Ordered : ℕ → List (Generation V) → Type 0
  Ordered m [] = Unit
  Ordered m (g ∷ gs) = (m < g.gen_number) × Ordered g.gen_number gs

  abbrev pub number_of : ℕ → Option (Generation V) → ℕ
  number_of m none = m
  number_of m (some g) = g.gen_number

  pub get_generation-append :
      (n : ℕ) (gs : List (Generation V)) (g : Generation V)
      → get_generation n (gs ++ g ∷ [])
        ≡ (if nat_beq g.gen_number n then some g else get_generation n gs)
  unfolding get_generation
  get_generation-append n [] g = refl
  get_generation-append n (h ∷ gs) g = elim (Bool-cases (nat_beq g.gen_number n)) [
    | inl c ↦ ground (arith, get_generation-append n gs g, c)
    | inr c ↦ ground (arith, get_generation-append n gs g, c)
  ]

  pub get_latest-append :
      (gs : List (Generation V)) (g : Generation V) → get_latest (gs ++ g ∷ []) ≡ some g
  unfolding get_latest
  get_latest-append [] g = refl
  get_latest-append (h ∷ gs) g = ground (arith, get_latest-append gs g)

  pub number_of-get_latest :
      (m : ℕ) (g : Generation V) (gs : List (Generation V))
      → number_of m (get_latest (g ∷ gs)) ≡ number_of g.gen_number (get_latest gs)
  unfolding get_latest
  number_of-get_latest m g gs = go (get_latest gs)
    where
      go :
          (o : Option (Generation V))
          → number_of m (elim o [ none ↦ some g | some h ↦ some h ]) ≡ number_of g.gen_number o
      go none = refl
      go (some h) = refl

  pub Ordered-append :
      (m : ℕ) (gs : List (Generation V)) (new : Generation V)
      → Ordered m gs
      → number_of m (get_latest gs) < new.gen_number
      → Ordered m (gs ++ new ∷ [])
  Ordered-append m [] new h k = (unfold get_latest in k, tt)
  Ordered-append m (g ∷ gs) new h k =
      (h.0, Ordered-append g.gen_number gs new h.1 (omega (arith, k, number_of-get_latest m g gs)))

  pub number_of-le :
      (m : ℕ) (gs : List (Generation V)) → Ordered m gs → m ≤ number_of m (get_latest gs)
  unfolding get_latest
  number_of-le m [] h = omega arith
  number_of-le m (g ∷ gs) h =
      omega (arith, h.0, number_of-le g.gen_number gs h.1, number_of-get_latest m g gs)

  -- no generation has a number above the latest
  pub get_generation-above :
      (n m : ℕ) (gs : List (Generation V))
      → Ordered m gs
      → number_of m (get_latest gs) < n
      → get_generation n gs ≡ none
  unfolding get_generation
  get_generation-above n m [] h k = refl
  get_generation-above n m (g ∷ gs) h k =
      let above : number_of g.gen_number (get_latest gs) < n =
        omega (arith, k, number_of-get_latest m g gs) in
      ground (
        arith,
        get_generation-above n g.gen_number gs h.1 above,
        number_of-le g.gen_number gs h.1,
        above,
      )

pub get_key-set_key :
    (d : Keys) (k j : GenKey) (v : Option KeyValue)
    → get_key (set_key d k v) j ≡ (if nat_beq (rank k) (rank j) then v else get_key d j)
get_key-set_key d k j v = elim (Bool-cases (nat_beq (rank k) (rank j))) [
  | inl c ↦ ground (arith, c, get-put (rank k) (rank j) v d)
  | inr c ↦ ground (arith, c, get-put (rank k) (rank j) v d)
]

module _ {V St : Type 0} (S : ClientStore V St) where
  loaded_from-loaded :
      (o : Option ClientDict) (c : Client V St) → (loaded_from S o c).data_is_loaded ≡ true
  unfolding loaded_from
  loaded_from-loaded none c = refl
  loaded_from-loaded (some d) c = refl

  load_data-if :
      (c : Client V St) (b : Bool)
      → c.data_is_loaded ≡ b
      → (if b then c else loaded_from S (S.read_root c.store) c).data_is_loaded ≡ true
  load_data-if c true h = h
  load_data-if c false h = loaded_from-loaded (S.read_root c.store) c

  pub load_data-loaded : (c : Client V St) → (load_data S c).data_is_loaded ≡ true
  unfolding load_data
  load_data-loaded c = load_data-if c c.data_is_loaded refl

  -- loading a loaded client does nothing
  pub load_data_again : (c : Client V St) → c.data_is_loaded ≡ true → load_data S c ≡ c
  unfolding load_data
  load_data_again c h = ground (arith, h)

  -- the keys of a new generation
  next_generation-started :
      (now : ℕ) (o : Option (Generation V))
      → get_key (next_generation S now o).gen_keys started ≡ some (number now)
  unfolding get put
  next_generation-started now none = refl
  next_generation-started now (some g) = ground (
    arith,
    get_key-set_key (set_key g.gen_keys started (some (number now))) ended started none,
    get_key-set_key g.gen_keys started started (some (number now)),
  )

  next_generation-ended :
      (now : ℕ) (o : Option (Generation V))
      → get_key (next_generation S now o).gen_keys ended ≡ none
  unfolding get put
  next_generation-ended now none = refl
  next_generation-ended now (some g) =
      ground
        (arith, get_key-set_key (set_key g.gen_keys started (some (number now))) ended ended none)

  next_generation-above :
      (now : ℕ) (o : Option (Generation V))
      → (next_generation S now o).gen_number ≡ number_of 0 o + 1
  next_generation-above now none = refl
  next_generation-above now (some g) = refl

  -- What a client is once a generation is created.
  pub record Created (c : Client V St) (n : ℕ) (c' : Client V St) : Type 0 where
    pub new : Generation V
    pub new_number : new.gen_number ≡ n
    pub next : n ≡ number_of 0 (get_latest (load_data S c).generations) + 1
    pub new_started : get_key new.gen_keys started ≡ some (number c.current_time)
    pub new_ended : get_key new.gen_keys ended ≡ none
    pub lookup :
        (m : ℕ)
        → get_generation m c'.generations
          ≡ (if nat_beq n m then some new else get_generation m (load_data S c).generations)
    pub ordered : Ordered 0 (load_data S c).generations → Ordered 0 c'.generations
    pub unused :
        Ordered 0 (load_data S c).generations → get_generation n (load_data S c).generations ≡ none
    pub again : create_generation S c' ≡ raise generation_unfinished

  loaded_from-time :
      (o : Option ClientDict) (c : Client V St) → (loaded_from S o c).current_time ≡ c.current_time
  unfolding loaded_from
  loaded_from-time none c = refl
  loaded_from-time (some d) c = refl

  time-if :
      (c : Client V St) (b : Bool)
      → (if b then c else loaded_from S (S.read_root c.store) c).current_time ≡ c.current_time
  time-if c true = refl
  time-if c false = loaded_from-time (S.read_root c.store) c

  load_data-time : (c : Client V St) → (load_data S c).current_time ≡ c.current_time
  unfolding load_data
  load_data-time c = time-if c c.data_is_loaded

  -- the generation that is added
  abbrev new_of : Client V St → Generation V
  new_of c = next_generation S c.current_time (get_latest c.generations)

  abbrev with_new : Client V St → Client V St
  with_new c = record c { generations = c.generations ++ new_of c ∷ [] }

  create_generation-if :
      (c : Client V St)
      → create_generation S c ≡ (
          if is_finished S (get_latest (load_data S c).generations)
          then ok ((new_of (load_data S c)).gen_number, with_new (load_data S c))
          else raise generation_unfinished)
  unfolding create_generation
  create_generation-if c = refl

  pub create_generation-unfinished :
      (c : Client V St)
      → is_finished S (get_latest (load_data S c).generations) ≡ false
      → create_generation S c ≡ raise generation_unfinished
  create_generation-unfinished c h = create_generation-if c ∙ ground (arith, h)

  not_finished :
      (g : Generation V) → get_key g.gen_keys ended ≡ none → is_finished S (some g) ≡ false
  not_finished g h = ground (arith, h)

  unfinished_again :
      (c1 : Client V St)
      → c1.data_is_loaded ≡ true
      → create_generation S (with_new c1) ≡ raise generation_unfinished
  unfinished_again c1 l =
      let new = new_of c1 in
      let e = load_data_again (with_new c1) l in
      create_generation-unfinished (with_new c1) (
        ap (λ (c : Client V St). is_finished S (get_latest c.generations)) e
        ∙ ap (λ o. is_finished S o) (get_latest-append c1.generations new)
        ∙ not_finished new (next_generation-ended c1.current_time (get_latest c1.generations)))

  -- If the latest generation has ended, or there is none, a generation is created under the number after
  -- the latest. It has started now, has not ended, and is found under its number, which no generation
  -- had if the numbers ascended. Other numbers find what they found, ascending numbers stay so, and a
  -- second generation is refused as long as this one has not ended.
  pub create_generation-Created :
      (c : Client V St)
      → is_finished S (get_latest (load_data S c).generations) ≡ true
      → (n : ℕ) × (c' : Client V St) × (create_generation S c ≡ ok (n, c')) × Created c n c'
  create_generation-Created c h =
      let c1 = load_data S c in
      let new = new_of c1 in
      let latest = get_latest c1.generations in
      let next = next_generation-above c1.current_time latest in
      (
        new.gen_number,
        with_new c1,
        create_generation-if c ∙ ground (arith, h),
        record {
          new = new;
          new_number = refl;
          next = next;
          new_started =
              next_generation-started c1.current_time latest
              ∙ ap (λ i. some (number i)) (load_data-time c);
          new_ended = next_generation-ended c1.current_time latest;
          lookup = λ m. get_generation-append m c1.generations new;
          ordered = λ o. Ordered-append 0 c1.generations new o (omega (arith, next));
          unused =
              λ o. get_generation-above new.gen_number 0 c1.generations o (omega (arith, next));
          again = unfinished_again c1 (load_data-loaded c);
        },
      )
