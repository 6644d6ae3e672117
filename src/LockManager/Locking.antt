-- ===== src/LockManager/Locking.antt =====
-- `_lock_one` of obnamlib/lockmgr.py, over a file system that keeps what this program has locked.
use obnam.Prelude.{
  ℕ, zero, suc, ◌-◌, ◌≤◌, ◌<◌, ◌≡◌, refl, ◌∙◌, Bool, some, true, false, List, [], ◌∷◌, ◌++◌, arith,
  inl, inr,
}
use obnam.Prelude.Tests.{if◌then◌else◌, leb, Bool-cases, Option-cases}
use obnam.Prelude.Keys.{◌==◌, Eq, Ord, contains}
use obnam.LockManager.Locks.{LockFs, Outcome, done, lock_fail, LockManager, try_lock, lock_one}

-- What `LockManager` relies on in a file system: which directories this program has locked there changes
-- by a lock and an unlock alone, and what it has locked it can unlock.
pub record Holding {D W : Type 0} ⦃ed : Eq D⦄ (F : LockFs D W) : Type 0 where
  pub ours : W → D → Bool
  pub lock_ours :
      (w w' : W) (d x : D) → F.lock w d ≡ some w' → ours w' x ≡ (if x == d then true else ours w x)
  pub unlock_ours :
      (w : W) (d : D)
      → ours w d ≡ true
      → (w' : W) × (F.unlock w d ≡ some w')
        × ((x : D) → ours w' x ≡ (if x == d then false else ours w x))
  pub time_ours : (w : W) (x : D) → ours (F.time w).1 x ≡ ours w x
  pub sleep_ours : (w : W) (x : D) → ours (F.sleep w) x ≡ ours w x

module _ {D W : Type 0} (F : LockFs D W) where
  -- The world after some rounds of looking at the clock and sleeping.
  unfoldable pub waited : ℕ → W → W
  waited zero w = w
  waited (suc k) w = waited k (F.sleep (F.time w).1)

  -- From whenever on, the clock passes the timeout in less than so many rounds.
  abbrev pub Passes : ℕ → ℕ → Type 0
  Passes fuel timeout =
      (w : W) → (k : ℕ) × (k < fuel) × (timeout ≤ (F.time (waited k (F.time w).1)).0 - (F.time w).0)

module _ {D W : Type 0} ⦃ed : Eq D⦄ ⦃od : Ord D⦄ (F : LockFs D W) (H : Holding F) where
  -- What a loop that locks came to: all of `ds` locked besides what was locked in the file system and by
  -- the manager, or just what was.
  pub data Locked (got ds : List D) (w : W) (r : Outcome × LockManager D W) : Type 0 where
    all_locked :
        r.0 ≡ done
        → r.1.got_locks ≡ got ++ ds
        → ((x : D) → H.ours r.1.fs x ≡ (if contains ds x then true else H.ours w x))
        → Locked got ds w r
    none_locked :
        r.0 ≡ lock_fail
        → r.1.got_locks ≡ got
        → ((x : D) → H.ours r.1.fs x ≡ H.ours w x)
        → Locked got ds w r

  try_lock-Locked :
      (fuel k timeout started : ℕ) (m : LockManager D W) (d : D) (w : W)
      → k < fuel
      → timeout ≤ (F.time (waited F k m.fs)).0 - started
      → ((x : D) → H.ours m.fs x ≡ H.ours w x)
      → Locked m.got_locks (d ∷ []) w (try_lock F fuel timeout started m d)
  unfolding try_lock waited
  try_lock-Locked zero k timeout started m d w h p s = absurd (omega arith)
  try_lock-Locked (suc fuel) k timeout started m d w h p s = elim (Option-cases (F.lock m.fs d)) [
    | inr (w', e) ↦
        rw (try_lock, e)
          (all_locked refl refl (λ x. H.lock_ours m.fs w' d x e ∙ ground (arith, s x)))
    | inl e ↦ elim (Bool-cases (leb timeout ((F.time m.fs).0 - started))) [
      | inl c ↦ rw (try_lock, e, c) (none_locked refl refl (λ x. H.time_ours m.fs x ∙ s x))
      | inr c ↦
          let next : LockManager D W = record m { fs = F.sleep (F.time m.fs).1 } in
          let (k', lt, p') = later k h p c in
          rw (try_lock, e, c)
            (try_lock-Locked fuel k' timeout started next d w lt p'
              (λ x. H.sleep_ours (F.time m.fs).1 x ∙ H.time_ours m.fs x ∙ s x))
    ]
  ]
    where
      later :
          (k : ℕ)
          → k < suc fuel
          → timeout ≤ (F.time (waited F k m.fs)).0 - started
          → leb timeout ((F.time m.fs).0 - started) ≡ false
          → (j : ℕ) × (j < fuel)
            × (timeout ≤ (F.time (waited F j (F.sleep (F.time m.fs).1))).0 - started)
      later zero h p c = absurd (ground (arith, p, c))
      later (suc k) h p c = (k, omega (arith, h), p)

  pub lock_one-Locked :
      (fuel timeout : ℕ) (m : LockManager D W) (d : D)
      → Passes F fuel timeout
      → Locked m.got_locks (d ∷ []) m.fs (lock_one F fuel timeout m d)
  unfolding lock_one
  lock_one-Locked fuel timeout m d P =
      let (k, h, p) = P m.fs in
      try_lock-Locked fuel k timeout (F.time m.fs).0 (record m { fs = (F.time m.fs).1 }) d m.fs h p
        (H.time_ours m.fs)
