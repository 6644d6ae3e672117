-- ===== src/LockManager/Unlocking.antt =====
-- `unlock` of obnamlib/lockmgr.py gives back what `lock` has locked.
use mathlib.Core.List.{append-nil}
use obnam.Prelude.{
  ◌≡◌, refl, sym, ap, ◌∙◌, Option, none, some, true, false, List, [], ◌∷◌, ◌++◌, arith, inl, inr,
}
use obnam.Prelude.Tests.{if◌then◌else◌, Bool-cases}
use obnam.Prelude.Lists.{All, All-append_left}
use obnam.Prelude.Keys.{◌==◌, eq_of_beq, Eq, Ord, beq_refl, contains, remove_first}
use obnam.Prelude.Sorted.{Ascending, sorted, insert_key}
use obnam.LockManager.Locks.{
  LockFs, Outcome, unlock_error, done, LockManager, unlock_one, unlock_each, unlock,
}
use obnam.LockManager.Locking.{Holding}

module _ {D W : Type 0} ⦃ed : Eq D⦄ ⦃od : Ord D⦄ (F : LockFs D W) (H : Holding F) where
  -- none of the names is in the list
  abbrev pub NoneIn : List D → List D → Type 0
  NoneIn got ds = All (λ d. contains got d ≡ false) ds

  contains-middle : (got : List D) (d : D) (rest : List D) → contains (got ++ d ∷ rest) d ≡ true
  contains-middle [] d rest = rw (beq_refl d)
  contains-middle (x ∷ got) d rest = ground (arith, contains-middle got d rest)

  remove_first-middle :
      (got : List D) (d : D) (rest : List D)
      → contains got d ≡ false
      → remove_first d (got ++ d ∷ rest) ≡ got ++ rest
  remove_first-middle [] d rest h = rw (beq_refl d)
  remove_first-middle (x ∷ got) d rest h = ground (arith, remove_first-middle got d rest)

  insert_key-first :
      (x : D) (xs : List D) → All (λ y. od.le y x ≡ false) xs → insert_key x xs ≡ x ∷ xs
  unfolding insert_key
  insert_key-first x [] h = refl
  insert_key-first x (y ∷ ys) h = rw (od.le_total y x h.0)

  sorted_of_Ascending : (xs : List D) → Ascending xs → sorted xs ≡ xs
  unfolding sorted
  sorted_of_Ascending [] h = refl
  sorted_of_Ascending (x ∷ xs) h = rw (sorted_of_Ascending xs h.1) (insert_key-first x xs h.0)

  pub Ascending-left : (xs ys : List D) → Ascending (xs ++ ys) → Ascending xs
  Ascending-left [] ys h = tt
  Ascending-left (x ∷ xs) ys h =
      (All-append_left (λ y. od.le y x ≡ false) xs ys h.0, Ascending-left xs ys h.1)

  not_in_later : (d : D) (ds : List D) → All (λ y. od.le y d ≡ false) ds → contains ds d ≡ false
  not_in_later d [] h = refl
  not_in_later d (y ∷ ds) h = elim (Bool-cases (d == y)) [
    | inl q ↦
        let e : od.le y d ≡ true = ap (od.le y) (eq_of_beq d y q) ∙ od.le_refl y in
        absurd (cc (e, h.0))
    | inr q ↦ rw q (not_in_later d ds h.1)
  ]

  -- the locks that were taken after `w`, those of `we`
  abbrev pub Taken : List D → W → W → Type 0
  Taken we w w' = (x : D) → H.ours w' x ≡ (if contains we x then true else H.ours w x)

  -- none of the names is locked by this program
  abbrev pub NoneOurs : W → List D → Type 0
  NoneOurs w ds = All (λ d. H.ours w d ≡ false) ds

  unlocked_first :
      (d : D) (we : List D) (w w1 w2 : W)
      → contains we d ≡ false
      → H.ours w d ≡ false
      → Taken (d ∷ we) w w1
      → ((x : D) → H.ours w2 x ≡ (if x == d then false else H.ours w1 x))
      → Taken we w w2
  unlocked_first d we w w1 w2 n o t u x = elim (Bool-cases (x == d)) [
    | inl q ↦
        let e = eq_of_beq x d q in
        u x ∙ rw q (sym (ap (λ y. if contains we y then true else H.ours w y) e ∙ rw (n, o)))
    | inr q ↦ u x ∙ rw q (t x ∙ rw q)
  ]

  unlock_each-first :
      (m : LockManager D W) (w : W) (d : D) (we got : List D)
      → F.unlock m.fs d ≡ some w
      → (if contains m.got_locks d then remove_first d m.got_locks else m.got_locks) ≡ got
      → unlock_each F m (d ∷ we) ≡ unlock_each F (record { fs = w; got_locks = got }) we
  unfolding unlock_each unlock_one
  unlock_each-first m w d we got e g =
      let q : unlock_one F m d ≡ (done, record { fs = w; got_locks = got }) =
        ap
          (λ (o : Option W). elim o as (λ x. Outcome × LockManager D W) [
            | none ↦ (unlock_error, m)
            | some fs ↦ (
              done,
              record {
                fs = fs;
                got_locks =
                    if contains m.got_locks d then remove_first d m.got_locks else m.got_locks;
              },
            )
          ])
          e
        ∙ ap (λ (l : List D). (done, record { fs = w; got_locks = l })) g in
      rw (unlock_each, ap (λ x. x.0) q, ap (λ x. x.1) q) refl

  -- Unlocking what was locked gives the locks back.
  unlock_each-given_back :
      (got we : List D) (w : W) (m : LockManager D W)
      → m.got_locks ≡ got ++ we
      → Ascending we
      → NoneIn got we
      → NoneOurs w we
      → Taken we w m.fs
      → (m' : LockManager D W) × (unlock_each F m we ≡ (done, m'))
        × (m'.got_locks ≡ got)
        × ((x : D) → H.ours m'.fs x ≡ H.ours w x)
  unfolding unlock_each unlock_one
  unlock_each-given_back got [] w m e a n o t = (m, refl, e ∙ append-nil got, t)
  unlock_each-given_back got (d ∷ we) w m e a n o t =
      let (w', f, u) = H.unlock_ours m.fs d (t d ∙ rw (beq_refl d)) in
      let m1 : LockManager D W = record { fs = w'; got_locks = got ++ we } in
      let got1 : (if contains m.got_locks d then remove_first d m.got_locks else m.got_locks)
          ≡ got ++ we =
        rw (e, contains-middle got d we) (remove_first-middle got d we n.0) in
      let (m', r, g, s) =
        unlock_each-given_back got we w m1 refl a.1 n.1 o.1
          (unlocked_first d we w m.fs w' (not_in_later d we a.0) o.0 t u) in
      (m', unlock_each-first m w' d we (got ++ we) f got1 ∙ r, g, s)

  -- `unlock` of what was locked, in the order in which it was
  pub unlock-given_back :
      (got we : List D) (w : W) (m : LockManager D W)
      → m.got_locks ≡ got ++ we
      → Ascending we
      → NoneIn got we
      → NoneOurs w we
      → Taken we w m.fs
      → (m' : LockManager D W) × (unlock F m we ≡ (done, m'))
        × (m'.got_locks ≡ got)
        × ((x : D) → H.ours m'.fs x ≡ H.ours w x)
  unfolding unlock
  unlock-given_back got we w m e a n o t =
      let (m', r, g, s) = unlock_each-given_back got we w m e a n o t in
      (m', ap (unlock_each F m) (sorted_of_Ascending we a) ∙ r, g, s)
