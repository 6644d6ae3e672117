-- ===== src/Tests/Hooks.antt =====
-- The hooks of obnamlib/hooks.py, with two filters that change the texts without a tag.
use obnam.Prelude.{
  ℕ, zero, suc, ◌≡◌, refl, ap, ◌∙◌, true, false, some, some-injective, [], ◌∷◌, arith, inl, inr,
}
use obnam.Prelude.Tests.{if◌then◌else◌, Bool-cases}
use obnam.Prelude.Keys.{◌==◌, nat_eq, list_eq, list_beq, beq_refl, contains, count, count_with}
use obnam.Prelude.Dict.{Dict, get}
use obnam.Prelude.Result.{ok}
use obnam.Bag.ObjectId.{Text}
use obnam.Hooks.Hook.{Hook, priority_of, InOrder, add_callback, add_callback_lem}
use obnam.Hooks.Filters.{Filter, run_filter_read, run_filter_write}
use obnam.Hooks.Manager.{FilterHook, HookManager, filter_read, filter_write}
use obnam.Hooks.RoundTrip.{IsGood, run_filter_read-run_filter_write}

abbrev two : Hook ℕ
two = record { callbacks = 1 ∷ 2 ∷ []; priorities = (1, 250) ∷ (2, 750) ∷ [] }

-- a callback that is there is not added a second time
add_callback_lem_example :
    InOrder (priority_of (add_callback two 2 100).priorities) (add_callback two 2 100).callbacks
    × ((a : ℕ)
        → contains (add_callback two 2 100).callbacks a
          ≡ (if a == 2 then true else contains two.callbacks a))
    × ((a : ℕ) → count a (add_callback two 2 100).callbacks ≡ count_with two.callbacks 2 a)
    × ((a : ℕ)
        → get a (add_callback two 2 100).priorities ≡ (
            if 2 == a
            then (if contains two.callbacks 2 then get a two.priorities else some 100)
            else get a two.priorities))
add_callback_lem_example =
    add_callback_lem two 2 100 (unfold priority_of get in ((refl, tt), (tt, tt)))

-- writes a 7 before a text that no other filter changed, and reads a text without its first character
abbrev seven : Text → Filter
seven tag = record {
  tag = tag;
  filter_read = λ t. elim t [ [] ↦ [] | c ∷ cs ↦ cs ];
  filter_write =
      λ t. elim t [ [] ↦ some [] | c ∷ cs ↦ if c == 0 then some (7 ∷ c ∷ cs) else some (c ∷ cs) ];
}

-- It reads back what it changes, and not what it leaves as it is.
seven-reads :
    (tag t u : Text)
    → (seven tag).filter_write t ≡ some u
    → (t == u) ≡ false
    → (seven tag).filter_read u ≡ t
seven-reads tag [] u w c = absurd (ground (arith, w, c))
seven-reads tag (x ∷ xs) u w c = elim (Bool-cases (x == 0)) [
  | inl q ↦
      let p : u ≡ 7 ∷ x ∷ xs = some-injective u (7 ∷ x ∷ xs) (ground (arith, w, q)) in
      ap (seven tag).filter_read p
  | inr q ↦
      let p : u ≡ x ∷ xs = some-injective u (x ∷ xs) (ground (arith, w, q)) in
      let same : ((x ∷ xs) == u) ≡ true = ap (list_beq (x ∷ xs)) p ∙ beq_refl (x ∷ xs) in
      absurd (cc (same, c))
]

abbrev bytag : Dict Text Filter
bytag = (120 ∷ [], seven (120 ∷ [])) ∷ (121 ∷ [], seven (121 ∷ [])) ∷ []

x-IsGood : IsGood bytag (seven (120 ∷ []))
x-IsGood = record {
  first = 120;
  rest = [];
  tagged = refl;
  no_zero = (refl, tt);
  registered = unfold get in refl;
  reads = seven-reads (120 ∷ []);
}

y-IsGood : IsGood bytag (seven (121 ∷ []))
y-IsGood = record {
  first = 121;
  rest = [];
  tagged = refl;
  no_zero = (refl, tt);
  registered = unfold get in refl;
  reads = seven-reads (121 ∷ []);
}

-- the first filter changes the text, and the second one leaves it as it is
run_filter_read-run_filter_write_example :
    (w : Text) × (run_filter_write (seven (120 ∷ []) ∷ seven (121 ∷ []) ∷ []) (65 ∷ 0 ∷ []) ≡ ok w)
    × (run_filter_read 3 bytag w ≡ ok (65 ∷ 0 ∷ []))
run_filter_read-run_filter_write_example =
    run_filter_read-run_filter_write bytag (seven (120 ∷ []) ∷ seven (121 ∷ []) ∷ []) (65 ∷ 0 ∷ [])
      (7 ∷ 0 ∷ 65 ∷ 0 ∷ [], refl, x-IsGood, (120 ∷ 0 ∷ 7 ∷ 0 ∷ 65 ∷ 0 ∷ [], refl, y-IsGood, tt))

abbrev filter_of : ℕ → Filter
filter_of c = elim c [ zero ↦ seven (120 ∷ []) | suc n ↦ seven (121 ∷ []) ]

-- a filter hook with both filters
abbrev filter_hook : FilterHook ℕ
filter_hook = record {
  hook = record { callbacks = 0 ∷ 1 ∷ []; priorities = (0, 500) ∷ (1, 500) ∷ [] };
  bytag = (120 ∷ [], 0) ∷ (121 ∷ [], 1) ∷ [];
}

abbrev manager : HookManager ℕ
manager = record { hooks = []; filters = (90 ∷ [], filter_hook) ∷ [] }
