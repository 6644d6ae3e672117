-- ===== src/LockManager/Locks.antt =====
-- obnamlib/lockmgr.py: the methods of `LockManager`. Directory names are keys in the order of their
-- bytes. The file system with its clock, and what other programs do to it while this one sleeps, is
-- a parameter.
use obnam.Prelude.{ℕ, zero, suc, ◌-◌, Bool, Option, none, some, List, [], ◌∷◌, ◌++◌}
use obnam.Prelude.Tests.{if◌then◌else◌, leb}
use obnam.Prelude.Keys.{Eq, Ord, contains, remove_first}
use obnam.Prelude.Sorted.{sorted}

-- `lock` is `none` where it raises `LockFail`, `unlock` where it raises an error. `time` is a clock that
-- may move when it is read, `sleep` a second in which others may act.
pub record LockFs (D W : Type 0) : Type 0 where
  pub lock : W → D → Option W
  pub unlock : W → D → Option W
  pub exists : W → D → Bool
  pub remove : W → D → W
  pub time : W → ℕ × W
  pub sleep : W → W

pub data Outcome : Type 0 where
  done lock_fail unlock_error out_of_fuel : Outcome

pub record LockManager (D W : Type 0) : Type 0 where
  pub fs : W
  pub got_locks : List D

-- the `LockFail` that is raised again, unless unlocking raised another error
abbrev pub raised : {A : Type 0} → Outcome × A → Outcome × A
raised (done, m) = (lock_fail, m)
raised (out, m) = (out, m)

module _ {D W : Type 0} ⦃ed : Eq D⦄ ⦃od : Ord D⦄ (F : LockFs D W) where
  -- The loop of `_lock_one`. The fuel is the number of attempts.
  unfoldable pub try_lock : ℕ → ℕ → ℕ → LockManager D W → D → Outcome × LockManager D W
  try_lock zero timeout started m dirname = (out_of_fuel, m)
  try_lock (suc fuel) timeout started m dirname =
      let (now, w) = F.time m.fs in
      let again = try_lock fuel timeout started (record m { fs = F.sleep w }) dirname in
      elim (F.lock m.fs dirname) [
        | some fs ↦ (done, record { fs = fs; got_locks = m.got_locks ++ dirname ∷ [] })
        | none ↦ if leb timeout (now - started) then (lock_fail, record m { fs = w }) else again
      ]

  unfoldable pub lock_one : ℕ → ℕ → LockManager D W → D → Outcome × LockManager D W
  unfolding try_lock
  lock_one fuel timeout m dirname =
      let (started, w) = F.time m.fs in try_lock fuel timeout started (record m { fs = w }) dirname

  unfoldable pub unlock_one : LockManager D W → D → Outcome × LockManager D W
  unlock_one m dirname = elim (F.unlock m.fs dirname) [
    | none ↦ (unlock_error, m)
    | some fs ↦ (
      done,
      record {
        fs = fs;
        got_locks =
            if contains m.got_locks dirname then remove_first dirname m.got_locks else m.got_locks;
      },
    )
  ]

  unfoldable pub is_locked : LockManager D W → D → Bool
  is_locked m dirname = F.exists m.fs dirname

  unfoldable pub got_lock : LockManager D W → D → Bool
  got_lock m dirname = contains m.got_locks dirname

  unfoldable pub unlock_each : LockManager D W → List D → Outcome × LockManager D W
  unfolding unlock_one
  unlock_each m [] = (done, m)
  unlock_each m (dirname ∷ rest) =
      let (outcome, m') = unlock_one m dirname in
      let more = unlock_each m' rest in
      elim outcome [
        | done ↦ more
        | lock_fail ↦ (lock_fail, m')
        | unlock_error ↦ (unlock_error, m')
        | out_of_fuel ↦ (out_of_fuel, m')
      ]

  unfoldable pub unlock : LockManager D W → List D → Outcome × LockManager D W
  unfolding unlock_each
  unlock m dirnames = unlock_each m (sorted dirnames)

  -- the loop of `lock`, with the directories that it has locked so far
  unfoldable pub lock_each : ℕ → ℕ → LockManager D W → List D → List D → Outcome × LockManager D W
  unfolding unlock
  lock_each fuel timeout m we_locked [] = (done, m)
  lock_each fuel timeout m we_locked (dirname ∷ rest) =
      let (outcome, m') = lock_one fuel timeout m dirname in
      let more = lock_each fuel timeout m' (we_locked ++ dirname ∷ []) rest in
      elim outcome [
        | done ↦ more
        | lock_fail ↦ raised (unlock m' we_locked)
        | unlock_error ↦ (unlock_error, m')
        | out_of_fuel ↦ (out_of_fuel, m')
      ]

  unfoldable pub lock : ℕ → ℕ → LockManager D W → List D → Outcome × LockManager D W
  unfolding lock_each
  lock fuel timeout m dirnames = lock_each fuel timeout m [] (sorted dirnames)

  unfoldable pub force_one : LockManager D W → D → LockManager D W
  force_one m dirname = record {
    fs = if F.exists m.fs dirname then F.remove m.fs dirname else m.fs;
    got_locks =
        if contains m.got_locks dirname then remove_first dirname m.got_locks else m.got_locks;
  }

  unfoldable pub force_each : LockManager D W → List D → LockManager D W
  unfolding force_one
  force_each m [] = m
  force_each m (dirname ∷ rest) = force_each (force_one m dirname) rest

  unfoldable pub force : LockManager D W → List D → LockManager D W
  unfolding force_each
  force m dirnames = force_each m (sorted dirnames)
