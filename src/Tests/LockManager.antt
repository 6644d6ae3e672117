-- ===== src/Tests/LockManager.antt =====
-- The locks of obnamlib/lockmgr.py over a file system where another program holds one directory.
use obnam.Prelude.{
  ℕ, ◌+◌, ◌≡◌, refl, sym, ap, Bool, true, false, Option, none, some, some-injective, inl, inr, List,
  [], ◌∷◌, arith,
}
use obnam.Prelude.Tests.{if◌then◌else◌, Bool-cases}
use obnam.Prelude.Keys.{◌==◌, nat_eq, nat_ord, contains, remove_first}
use obnam.Prelude.Sorted.{sorted}
use obnam.LockManager.Locks.{
  LockFs, lock_fail, LockManager, try_lock, lock_one, lock_each, lock, unlock, unlock_each,
  unlock_one,
}
use obnam.LockManager.Locking.{Holding, Passes, waited, Locked}
use obnam.LockManager.Outcome.{lock-Locked}

-- what others have locked, what this program has locked, and the time
record Clocked : Type 0 where
  others : List ℕ
  own : ℕ → Bool
  now : ℕ

abbrev lock_dir : Clocked → ℕ → Option Clocked
lock_dir w d =
    if contains w.others d
    then none
    else if w.own d
    then none
    else some (record w { own = λ x. if x == d then true else w.own x })

abbrev unlock_dir : Clocked → ℕ → Option Clocked
unlock_dir w d =
    if w.own d then some (record w { own = λ x. if x == d then false else w.own x }) else none

abbrev one_disk : LockFs ℕ Clocked
one_disk = record {
  lock = lock_dir;
  unlock = unlock_dir;
  exists = λ w d. if contains w.others d then true else w.own d;
  remove = λ w d. record w {
    others = remove_first d w.others;
    own = λ x. if x == d then false else w.own x;
  };
  time = λ w. (w.now, w);
  sleep = λ w. record w { now = w.now + 1 };
}

lock_dir-own :
    (w w' : Clocked) (d x : ℕ)
    → lock_dir w d ≡ some w'
    → w'.own x ≡ (if x == d then true else w.own x)
lock_dir-own w w' d x h =
    let new : Clocked = record w { own = λ x. if x == d then true else w.own x } in
    elim (Bool-cases (contains w.others d)) [
      | inl q ↦ absurd (ground (arith, h, q))
      | inr q ↦ elim (Bool-cases (w.own d)) [
        | inl r ↦ absurd (ground (arith, h, q, r))
        | inr r ↦
            ap (λ (w : Clocked). w.own x) (sym (some-injective new w' (ground (arith, h, q, r))))
      ]
    ]

one_disk-Holding : Holding one_disk
one_disk-Holding = record {
  ours = λ w. w.own;
  lock_ours = lock_dir-own;
  unlock_ours =
      λ w d h. (record w { own = λ x. if x == d then false else w.own x }, rw h refl, λ x. refl);
  time_ours = λ w x. refl;
  sleep_ours = λ w x. refl;
}

abbrev manager : LockManager ℕ Clocked
manager = record {
  fs = record { others = 5 ∷ []; own = λ x. x == 1; now = 100 };
  got_locks = 1 ∷ [];
}

two_seconds : Passes one_disk 3 2
unfolding waited
two_seconds w = (2, omega arith, omega arith)

-- directory 5 is held by another
lock-Locked_example :
    Locked one_disk one_disk-Holding
      (1 ∷ [])
      (sorted (5 ∷ 3 ∷ []))
      manager.fs
      (lock one_disk 3 2 manager (5 ∷ 3 ∷ []))
unfolding one_disk-Holding
lock-Locked_example =
    lock-Locked one_disk one_disk-Holding 3 2 manager (5 ∷ 3 ∷ []) two_seconds
      ((refl, tt), (tt, tt)) (refl, (refl, tt)) (refl, (refl, tt))

-- after two seconds the lock of 3 is given back
lock_run :
    ((lock one_disk 3 2 manager (5 ∷ 3 ∷ [])).0 ≡ lock_fail)
    × ((lock one_disk 3 2 manager (5 ∷ 3 ∷ [])).1.got_locks ≡ 1 ∷ [])
    × ((lock one_disk 3 2 manager (5 ∷ 3 ∷ [])).1.fs.own 3 ≡ false)
    × ((lock one_disk 3 2 manager (5 ∷ 3 ∷ [])).1.fs.now ≡ 102)
unfolding lock lock_each lock_one try_lock unlock unlock_each unlock_one sorted
lock_run = (refl, refl, refl, refl)
