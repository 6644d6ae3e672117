-- ===== src/ForgetPolicy/Kept.antt =====
-- What `match` keeps.
use mathlib.Core.List.{reverse, reverse-append, reverse-cons, append_assoc}
use obnam.Prelude.{
  ℕ, zero, suc, ◌-◌, ◌≤◌, ◌≡◌, ◌≢◌, refl, ap, ◌∙◌, Bool, true, false, List, [], ◌∷◌, ◌++◌, map,
  arith, inl, inr,
}
use obnam.Prelude.Tests.{if◌then◌else◌, nat_beq, Bool-cases}
use obnam.Prelude.Lists.{length, drop, length-append, length-drop}
use obnam.Prelude.Keys.{Eq, ◌==◌, beq_refl, contains}
use obnam.ForgetPolicy.Parse.{Period, hourly, daily, weekly, monthly, yearly}
use obnam.ForgetPolicy.Match.{
  add_match, collect, last_in_each_period, ids_for, periods, in_results, keep, match,
}

module _ {G T F : Type 0} ⦃eg : Eq G⦄ ⦃ef : Eq F⦄ (strftime : Period → T → F) where
  -- does the period's text change after this generation?
  abbrev pub ends_period : Period → T → List (G × T) → Bool
  ends_period period dt [] = true
  ends_period period dt ((g, d) ∷ rest) =
      if strftime period dt == strftime period d then false else true

  -- The generations after which the period's text changes, and the last one.
  unfoldable pub period_ends : Period → List (G × T) → List (G × F)
  period_ends period [] = []
  period_ends period ((g, dt) ∷ rest) =
      let others = period_ends period rest in
      if ends_period period dt rest then (g, strftime period dt) ∷ others else others

  collect-period_ends :
      (period : Period) (g : G) (dt : T) (matches : List (G × F)) (rest : List (G × T))
      → reverse (collect strftime period ((g, strftime period dt) ∷ matches) rest)
        ≡ reverse matches ++ period_ends period ((g, dt) ∷ rest)
  unfolding collect period_ends
  collect-period_ends period g dt matches [] = reverse-append ((g, strftime period dt) ∷ []) matches
  collect-period_ends period g dt matches ((h, d) ∷ rest) =
      elim (Bool-cases (strftime period dt == strftime period d)) [
        | inl c ↦ rw c (collect-period_ends period h d matches rest)
        | inr c ↦ rw c (
            collect-period_ends period h d ((g, strftime period dt) ∷ matches) rest
            ∙ ap (λ l. l ++ period_ends period ((h, d) ∷ rest))
                (reverse-cons (g, strftime period dt) matches)
            ∙ append_assoc (reverse matches) ((g, strftime period dt) ∷ [])
                (period_ends period ((h, d) ∷ rest)))
      ]

  -- For each period the candidates are the generations after which the period's text changes, and
  -- the last generation, in the order of the list.
  pub last_in_each_period-period_ends :
      (period : Period) (genlist : List (G × T))
      → last_in_each_period strftime period genlist ≡ map (λ m. m.0) (period_ends period genlist)
  unfolding last_in_each_period
  last_in_each_period-period_ends period [] = unfold period_ends in refl
  last_in_each_period-period_ends period ((g, dt) ∷ rest) =
      ap (map (λ m. m.0)) (unfold add_match in collect-period_ends period g dt [] rest)

  period_ends-snoc :
      (period : Period) (xs : List (G × T)) (g : G) (dt : T)
      → (ys : List (G × F)) × (period_ends period (xs ++ (g, dt) ∷ [])
          ≡ ys ++ (g, strftime period dt) ∷ [])
  unfolding period_ends
  period_ends-snoc period [] g dt = ([], refl)
  period_ends-snoc period ((h, d) ∷ xs) g dt =
      let (ys, e) = period_ends-snoc period xs g dt in
      elim (Bool-cases (ends_period period d (xs ++ (g, dt) ∷ []))) [
        | inl c ↦ ((h, strftime period d) ∷ ys, rw (c, e))
        | inr c ↦ (ys, rw (c, e))
      ]

  contains-drop :
      (k : ℕ) (zs : List G) (g : G) → k ≤ length zs → contains (drop k (zs ++ g ∷ [])) g ≡ true
  contains-drop zero [] g h = rw (beq_refl g)
  contains-drop zero (z ∷ zs) g h = ground (arith, contains-drop zero zs g (omega arith))
  contains-drop (suc k) [] g h = absurd (omega arith)
  contains-drop (suc k) (z ∷ zs) g h = contains-drop k zs g (omega arith)

  map-fst-snoc :
      (ys : List (G × F)) (g : G) (f : F)
      → map (λ (m : G × F). m.0) (ys ++ (g, f) ∷ []) ≡ map (λ m. m.0) ys ++ g ∷ []
  map-fst-snoc [] g f = refl
  map-fst-snoc (y ∷ ys) g f = ap (◌∷◌ y.0) (map-fst-snoc ys g f)

  newest_in_ids_for :
      (rules : Period → ℕ) (p : Period) (xs : List (G × T)) (g : G) (dt : T)
      → nat_beq (rules p) 0 ≡ false
      → contains (ids_for strftime rules (xs ++ (g, dt) ∷ []) p) g ≡ true
  unfolding ids_for
  newest_in_ids_for rules p xs g dt h =
      let (ys, e) = period_ends-snoc p xs g dt in
      let zs = map (λ (m : G × F). m.0) ys in
      let l : last_in_each_period strftime p (xs ++ (g, dt) ∷ []) ≡ zs ++ g ∷ [] =
        last_in_each_period-period_ends p (xs ++ (g, dt) ∷ [])
        ∙ ap (map (λ m. m.0)) e
        ∙ map-fst-snoc ys g (strftime p dt) in
      rw (h, l)
        (contains-drop (length (zs ++ g ∷ []) - rules p) zs g
          (ground (arith, length-append zs (g ∷ []))))

  keep-snoc :
      (test : G → Bool) (xs : List (G × T)) (g : G) (dt : T)
      → test g ≡ true
      → keep strftime test (xs ++ (g, dt) ∷ []) ≡ keep strftime test xs ++ (g, dt) ∷ []
  unfolding keep
  keep-snoc test [] g dt h = rw h
  keep-snoc test ((i, d) ∷ xs) g dt h = ground (arith, keep-snoc test xs g dt h)

  in_results_of :
      (rules : Period → ℕ) (l : List (G × T)) (p : Period) (g : G)
      → contains (ids_for strftime rules l p) g ≡ true
      → in_results strftime rules l periods g ≡ true
  unfolding in_results
  in_results_of rules l hourly g h = ground arith
  in_results_of rules l daily g h = ground arith
  in_results_of rules l weekly g h = ground arith
  in_results_of rules l monthly g h = ground arith
  in_results_of rules l yearly g h = ground arith

  -- If any rule has a count, the newest generation is kept, as the last of those that are kept.
  pub match-newest :
      (rules : Period → ℕ) (p : Period) (xs : List (G × T)) (g : G) (dt : T)
      → rules p ≢ 0
      → (kept : List (G × T)) × (match strftime rules (xs ++ (g, dt) ∷ []) ≡ kept ++ (g, dt) ∷ [])
  unfolding match
  match-newest rules p xs g dt h =
      let l = xs ++ (g, dt) ∷ [] in
      (
        keep strftime (in_results strftime rules l periods) xs,
        keep-snoc (in_results strftime rules l periods) xs g dt
            (in_results_of rules l p g (newest_in_ids_for rules p xs g dt (ground arith))),
      )

  -- A rule keeps no more generations than its count, and a rule of count 0 keeps none.
  pub length-ids_for-le :
      (rules : Period → ℕ) (l : List (G × T)) (p : Period)
      → length (ids_for strftime rules l p) ≤ rules p
  unfolding ids_for
  length-ids_for-le rules l p =
      let ids = last_in_each_period strftime p l in
      ground (arith, length-drop (length ids - rules p) ids)
