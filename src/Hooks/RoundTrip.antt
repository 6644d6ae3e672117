-- ===== src/Hooks/RoundTrip.antt =====
-- What the filters write, they read back.
use obnam.Prelude.{
  ℕ, zero, suc, ◌+◌, ◌≡◌, refl, ap, ◌∙◌, Bool, true, false, none, some, List, [], ◌∷◌, ◌++◌, arith,
  inl, inr,
}
use obnam.Prelude.Tests.{if◌then◌else◌, nat_beq, Bool-cases}
use obnam.Prelude.Lists.{length, All}
use obnam.Prelude.Keys.{◌==◌, nat_eq, list_eq}
use obnam.Prelude.Dict.{Dict, get}
use obnam.Prelude.Result.{Result, ok, raise}
use obnam.Bag.ObjectId.{Text, split_once, split_once-append}
use obnam.Hooks.Filters.{
  Error, Filter, filter_next_tag, next_round, run_filter_read, write_filters, run_filter_write,
}

-- A filter that is registered under its tag, and reads back each text that it changed.
pub record IsGood (bytag : Dict Text Filter) (f : Filter) : Type 0 where
  pub first : ℕ
  pub rest : Text
  pub tagged : f.tag ≡ first ∷ rest
  pub no_zero : All (λ c. nat_beq c 0 ≡ false) f.tag
  pub registered : get f.tag bytag ≡ some f
  pub reads : (t u : Text) → f.filter_write t ≡ some u → (t == u) ≡ false → f.filter_read u ≡ t

module _ (bytag : Dict Text Filter) where
  filter_next_tag-tagged :
      (f : Filter) (t : Text)
      → IsGood bytag f
      → filter_next_tag bytag (f.tag ++ 0 ∷ t) ≡ ok (true, f.filter_read t)
  unfolding filter_next_tag
  filter_next_tag-tagged f t g =
      let e = split_once-append 0 f.tag t g.no_zero in
      rw (filter_next_tag, e) (by_tag f.tag g.first g.rest g.tagged g.registered)
    where
      by_tag :
          (tag : Text) (c : ℕ) (cs : Text)
          → tag ≡ c ∷ cs
          → get tag bytag ≡ some f
          → ◌≡◌ {A = Result Error (Bool × Text)}
              (elim tag [
                | [] ↦ ok (false, t)
                | c ∷ cs ↦ elim (get (c ∷ cs) bytag) [
                  | none ↦ raise (Error.missing_filter (c ∷ cs))
                  | some f ↦ ok (true, f.filter_read t)
                ]
              ])
              (ok (true, f.filter_read t))
      by_tag [] c cs p r = cc
      by_tag (x ∷ xs) c cs p r = rw r

  next_round_mono :
      (k k' : Text → Result Error Text) (r : Result Error (Bool × Text)) (x : Text)
      → ((t : Text) → k t ≡ ok x → k' t ≡ ok x)
      → next_round k r ≡ ok x
      → next_round k' r ≡ ok x
  unfolding next_round
  next_round_mono k k' (raise e) x f h = cc
  next_round_mono k k' (ok (true, t)) x f h = f t h
  next_round_mono k k' (ok (false, t)) x f h = h

  run_filter_read-suc :
      (fuel : ℕ) (t x : Text)
      → run_filter_read fuel bytag t ≡ ok x
      → run_filter_read (suc fuel) bytag t ≡ ok x
  unfolding run_filter_read
  run_filter_read-suc zero t x h = cc
  run_filter_read-suc (suc fuel) t x h =
      next_round_mono (λ rest. run_filter_read fuel bytag rest)
        (λ rest. run_filter_read (suc fuel) bytag rest) (filter_next_tag bytag t) x
        (λ rest. run_filter_read-suc fuel rest x) h

  read_tagged :
      (fuel : ℕ) (f : Filter) (u x : Text)
      → IsGood bytag f
      → run_filter_read fuel bytag (f.filter_read u) ≡ ok x
      → run_filter_read (suc fuel) bytag (f.tag ++ 0 ∷ u) ≡ ok x
  unfolding run_filter_read next_round
  read_tagged fuel f u x g h =
      ap (next_round (λ rest. run_filter_read fuel bytag rest)) (filter_next_tag-tagged f u g) ∙ h

  -- reading what one filter wrote
  read_one :
      (fuel : ℕ) (f : Filter) (t u x : Text)
      → IsGood bytag f
      → f.filter_write t ≡ some u
      → run_filter_read fuel bytag t ≡ ok x
      → run_filter_read (suc fuel) bytag (if t == u then t else f.tag ++ 0 ∷ u) ≡ ok x
  read_one fuel f t u x g w h = elim (Bool-cases (t == u)) [
    | inl c ↦ rw c (run_filter_read-suc fuel t x h)
    | inr c ↦
        rw c
          (read_tagged fuel f u x g (ap (λ y. run_filter_read fuel bytag y) (g.reads t u w c) ∙ h))
  ]

  -- All filters are registered under their tags and read back what they change, and none refuses the
  -- text that it is given.
  abbrev pub AllWrite : List Filter → Text → Type 0
  AllWrite [] t = Unit
  AllWrite (f ∷ fs) t =
      (u : Text) × (f.filter_write t ≡ some u)
      × IsGood bytag f
      × AllWrite fs (if t == u then t else f.tag ++ 0 ∷ u)

  read-write_filters :
      (fs : List Filter) (fuel : ℕ) (t x : Text)
      → AllWrite fs t
      → run_filter_read fuel bytag t ≡ ok x
      → (w : Text) × (write_filters fs t ≡ ok w)
        × (run_filter_read (length fs + fuel) bytag w ≡ ok x)
  unfolding write_filters
  read-write_filters [] fuel t x g h =
      (t, refl, ap (λ (n : ℕ). run_filter_read n bytag t) (omega arith) ∙ h)
  read-write_filters (f ∷ fs) fuel t x (u, e, g, rest) h =
      let t' = if t == u then t else f.tag ++ 0 ∷ u in
      let (w, p, q) = read-write_filters fs (suc fuel) t' x rest (read_one fuel f t u x g e h) in
      (w, rw e p, ap (λ (n : ℕ). run_filter_read n bytag w) (omega arith) ∙ q)

  read_plain : (x : Text) → run_filter_read 1 bytag (0 ∷ x) ≡ ok x
  unfolding run_filter_read next_round filter_next_tag split_once
  read_plain x = refl

  -- If each filter writes the text that it is given, is registered under a tag without zero bytes, and
  -- reads back the texts that it changes, then `run_filter_read` gives back the text that was given to
  -- `run_filter_write`, with one round for each filter and one for the empty tag.
  pub run_filter_read-run_filter_write :
      (callbacks : List Filter) (text : Text)
      → AllWrite callbacks (0 ∷ text)
      → (w : Text) × (run_filter_write callbacks text ≡ ok w)
        × (run_filter_read (length callbacks + 1) bytag w ≡ ok text)
  unfolding run_filter_write
  run_filter_read-run_filter_write callbacks text g =
      read-write_filters callbacks 1 (0 ∷ text) text g (read_plain text)
