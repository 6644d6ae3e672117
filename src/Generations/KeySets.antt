-- ===== src/Generations/KeySets.antt =====
-- What `set_generation_key` of obnamlib/fmt_ga/client.py does to the generations of a client.
use obnam.Prelude.{
  ℕ, ◌≡◌, sym, ap, ◌∙◌, Bool, true, false, not, Option, none, some, List, [], ◌∷◌, arith, inl, inr,
}
use obnam.Prelude.Tests.{if◌then◌else◌, nat_beq, nat_beq_iff, Bool-cases}
use obnam.Prelude.Keys.{nat_eq, beq_refl}
use obnam.Prelude.Dict.{get, get-put_self}
use obnam.Directories.Directory.{or_none}
use obnam.Prelude.Result.{Result, ok, ◌>>=◌}
use obnam.Generations.Generation.{
  Generation, KeyValue, GenKey, number, text, rank, get_key, set_key, get_generation,
  update_generation,
}
use obnam.Generations.Client.{
  ClientStore, Client, ClientError, load_data, lookup_generation, generation_or_error,
  set_generation_key, get_generation_key, is_integer_gen_key, int_value, text_value,
}
use obnam.Generations.Numbers.{load_data-loaded, load_data_again, get_key-set_key, number_of}

module _ {V : Type 0} where
  abbrev pub if_some : Option (Generation V) → Option (Generation V) → Option (Generation V)
  if_some none new = none
  if_some (some g) new = new

  -- a changed generation is the one that is found under its number
  pub get_generation-update_generation :
      (m n : ℕ) (new : Generation V) (gs : List (Generation V))
      → new.gen_number ≡ n
      → get_generation m (update_generation n new gs)
        ≡ (if nat_beq n m then if_some (get_generation m gs) (some new) else get_generation m gs)
  unfolding get_generation update_generation
  get_generation-update_generation m n new [] h = ground arith
  get_generation-update_generation m n new (g ∷ gs) h =
      ground (arith, get_generation-update_generation m n new gs h, h)

-- whether a value can be read back under a key
abbrev pub fits : GenKey → KeyValue → Bool
fits key (number i) = true
fits key (text t) = not (is_integer_gen_key key)

module _ {V St : Type 0} (S : ClientStore V St) where
  -- what is returned for what a generation has under a key
  abbrev value_of :
      GenKey
      → Client V St
      → Option (Option KeyValue)
      → Result ClientError (Option KeyValue × Client V St)
  value_of key c o =
      if is_integer_gen_key key
      then (do v ← int_value (or_none o); ok (some v, c))
      else ok (text_value o, c)

  value_of-fits :
      (key : GenKey) (value : KeyValue) (c : Client V St)
      → fits key value ≡ true
      → value_of key c (some (some value)) ≡ ok (some value, c)
  value_of-fits key (number i) c h = ground arith
  value_of-fits key (text t) c h = ground (arith, h)

  get_generation_key-value_of :
      (c : Client V St) (n : ℕ) (key : GenKey) (g : Generation V)
      → get_generation n (load_data S c).generations ≡ some g
      → get_generation_key S c n key ≡ value_of key (load_data S c) (get (rank key) g.gen_keys)
  unfolding get_generation_key lookup_generation
  get_generation_key-value_of c n key g h =
      ap
        (λ o. generation_or_error S n o >>= λ k.
          value_of key (load_data S c) (get (rank key) k.gen_keys))
        h

  -- a generation with a new value for a key
  abbrev pub with_value : Generation V → GenKey → Option KeyValue → Generation V
  with_value g key value = record g { gen_keys = set_key g.gen_keys key value }

  abbrev with_key : Client V St → ℕ → GenKey → Option KeyValue → Generation V → Client V St
  with_key c n key value g = record c {
    generations = update_generation n (with_value g key value) c.generations;
  }

  set_generation_key-with_key :
      (c : Client V St) (n : ℕ) (key : GenKey) (value : Option KeyValue) (g : Generation V)
      → get_generation n (load_data S c).generations ≡ some g
      → set_generation_key S c n key value ≡ ok (with_key (load_data S c) n key value g)
  unfolding set_generation_key lookup_generation
  set_generation_key-with_key c n key value g h =
      ap (λ o. generation_or_error S n o >>= λ k. ok (with_key (load_data S c) n key value k)) h

  first_number :
      (n : ℕ) (g k : Generation V)
      → (if nat_beq k.gen_number n then some k else none) ≡ some g
      → g.gen_number ≡ n
  first_number n g k h = elim (Bool-cases (nat_beq k.gen_number n)) [
    | inl c ↦
        let e : some k ≡ some g = ground (arith, h, c) in
        sym (ap (λ o. number_of 0 o) e) ∙ (nat_beq_iff k.gen_number n).0 c
    | inr c ↦ absurd (ground (arith, h, c))
  ]

  number_by :
      (n : ℕ) (g k : Generation V) (o : Option (Generation V))
      → (o ≡ some g → g.gen_number ≡ n)
      → (elim o [ none ↦ if nat_beq k.gen_number n then some k else none | some x ↦ some x ])
        ≡ some g
      → g.gen_number ≡ n
  number_by n g k none f h = first_number n g k h
  number_by n g k (some x) f h = f h

  pub get_generation-number :
      (n : ℕ) (g : Generation V) (gs : List (Generation V))
      → get_generation n gs ≡ some g
      → g.gen_number ≡ n
  unfolding get_generation
  get_generation-number n g [] h = absurd (ground (arith, h))
  get_generation-number n g (k ∷ gs) h =
      number_by n g k (get_generation n gs) (get_generation-number n g gs) h

  pub get_generation-changed :
      (m n : ℕ) (g new : Generation V) (gs : List (Generation V))
      → get_generation n gs ≡ some g
      → new.gen_number ≡ n
      → get_generation m (update_generation n new gs)
        ≡ (if nat_beq n m then some new else get_generation m gs)
  get_generation-changed m n g new gs h k = elim (Bool-cases (nat_beq n m)) [
    | inl c ↦
        let e = ap (λ i. get_generation i gs) (sym ((nat_beq_iff n m).0 c)) ∙ h in
        get_generation-update_generation m n new gs k ∙ ground (arith, c, e)
    | inr c ↦ get_generation-update_generation m n new gs k ∙ ground (arith, c)
  ]

  -- What a client is once a key of a generation is set.
  pub record KeySet (c : Client V St) (n : ℕ) (key : GenKey) (value : KeyValue) (g : Generation V)
      (c' : Client V St) : Type 0 where
    pub read : get_generation_key S c' n key ≡ ok (some value, c')
    pub lookup :
        (m : ℕ)
        → get_generation m c'.generations ≡ (
            if nat_beq n m
            then some (with_value g key (some value))
            else get_generation m (load_data S c).generations)
    pub others :
        (j : GenKey)
        → nat_beq (rank key) (rank j) ≡ false
        → get_key (with_value g key (some value)).gen_keys j ≡ get_key g.gen_keys j

  -- Setting a key of a generation to a number, or to a text where the key is not an integer key, returns a
  -- client from which the value is read back. The generation's other keys, and other generations,
  -- are as before.
  pub set_generation_key-KeySet :
      (c : Client V St) (n : ℕ) (key : GenKey) (value : KeyValue) (g : Generation V)
      → get_generation n (load_data S c).generations ≡ some g
      → fits key value ≡ true
      → (c' : Client V St) × (set_generation_key S c n key (some value) ≡ ok c')
        × KeySet c n key value g c'
  set_generation_key-KeySet c n key value g h f =
      let c1 = load_data S c in
      let c' = with_key c1 n key (some value) g in
      let new = with_value g key (some value) in
      let look = λ (m : ℕ).
        get_generation-changed m n g new c1.generations h
          (get_generation-number n g c1.generations h) in
      let again = load_data_again S c' (load_data-loaded S c) in
      let found : get_generation n (load_data S c').generations ≡ some new =
        ap (λ (k : Client V St). get_generation n k.generations) again
        ∙ look n
        ∙ ground (arith, nat_beq_iff n n) in
      let kept : get (rank key) new.gen_keys ≡ some (some value) =
        get-put_self (rank key) (rank key) (some value) g.gen_keys (beq_refl (rank key)) in
      (
        c',
        set_generation_key-with_key c n key (some value) g h,
        record {
          read =
              get_generation_key-value_of c' n key new found
              ∙ ap (λ o. value_of key (load_data S c') o) kept
              ∙ value_of-fits key value (load_data S c') f
              ∙ ap (λ k. ok (some value, k)) again;
          lookup = look;
          others = λ j i. get_key-set_key g.gen_keys key j (some value) ∙ ground (arith, i);
        },
      )
