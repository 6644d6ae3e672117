-- ===== src/LockManager/Outcome.antt =====
-- `lock` of obnamlib/lockmgr.py takes all the locks or none, and comes to an end.
use mathlib.Core.List.{append_assoc, append-nil}
use obnam.Prelude.{ℕ, ◌≡◌, refl, sym, ap, subst, ◌∙◌, true, false, List, [], ◌∷◌, ◌++◌, arith}
use obnam.Prelude.Tests.{if◌then◌else◌}
use obnam.Prelude.Lists.{All-append_left}
use obnam.Prelude.Keys.{Eq, Ord, contains}
use obnam.Prelude.Sorted.{Distinct, Ascending, sorted, sorted-Ascending, All-sorted}
use obnam.LockManager.Locks.{LockFs, Outcome, LockManager, lock_one, lock_each, lock}
use obnam.Prelude.Sorted.{contains-append}
use obnam.LockManager.Locking.{Holding, Passes, Locked, all_locked, none_locked, lock_one-Locked}
use obnam.LockManager.Unlocking.{NoneIn, NoneOurs, Taken, Ascending-left, unlock-given_back}

module _ {D W : Type 0} ⦃ed : Eq D⦄ ⦃od : Ord D⦄ (F : LockFs D W) (H : Holding F) where
  -- what is locked before each round of the loop
  record Between (got we rest : List D) (w : W) (m : LockManager D W) : Type 0 where
    listed : m.got_locks ≡ got ++ we
    ordered : Ascending (we ++ rest)
    new : NoneIn F H got (we ++ rest)
    free : NoneOurs F H w (we ++ rest)
    taken : Taken F H we w m.fs

  step :
      (fuel timeout : ℕ) (got we : List D) (d : D) (rest : List D) (w : W) (m : LockManager D W)
      → Between got we (d ∷ rest) w m
      → (r : Outcome × LockManager D W) → lock_one F fuel timeout m d ≡ r
      → Locked F H m.got_locks (d ∷ []) m.fs r
      → ((m' : LockManager D W)
          → m'.got_locks ≡ m.got_locks ++ d ∷ []
          → ((x : D) → H.ours m'.fs x ≡ (if contains (d ∷ []) x then true else H.ours m.fs x))
          → Locked F H got (we ++ d ∷ rest) w (lock_each F fuel timeout m' (we ++ d ∷ []) rest))
      → Locked F H got (we ++ d ∷ rest) w (lock_each F fuel timeout m we (d ∷ rest))
  unfolding lock_each
  step fuel timeout got we d rest w m B (out, m') r (all_locked p q o) next =
      rw (lock_each, ap (λ x. x.0) r ∙ p, ap (λ x. x.1) r) (next m' q o)
  step fuel timeout got we d rest w m B (out, m') r (none_locked p q o) next =
      let (m2, e, g, s) =
        unlock-given_back F H got we w m' (q ∙ B.listed)
          (Ascending-left F H we (d ∷ rest) B.ordered)
          (All-append_left (λ x. contains got x ≡ false) we (d ∷ rest) B.new)
          (All-append_left (λ x. H.ours w x ≡ false) we (d ∷ rest) B.free) (λ x. o x ∙ B.taken x) in
      rw (lock_each, ap (λ x. x.0) r ∙ p, ap (λ x. x.1) r, e) (none_locked refl g s)

  one_more_lock :
      (we : List D) (d : D) (w w1 w2 : W)
      → Taken F H we w w1
      → ((x : D) → H.ours w2 x ≡ (if contains (d ∷ []) x then true else H.ours w1 x))
      → Taken F H (we ++ d ∷ []) w w2
  one_more_lock we d w w1 w2 t o x = ground (arith, t x, o x, contains-append we (d ∷ []) x)

  lock_each-Locked :
      (fuel timeout : ℕ) (got we rest : List D) (w : W) (m : LockManager D W)
      → Passes F fuel timeout
      → Between got we rest w m
      → Locked F H got (we ++ rest) w (lock_each F fuel timeout m we rest)
  lock_each-Locked fuel timeout got we [] w m P B =
      let e = append-nil we in
      unfold lock_each in
      all_locked refl (B.listed ∙ ap (λ l. got ++ l) (sym e))
        (λ x. B.taken x ∙ ap (λ l. if contains l x then true else H.ours w x) (sym e))
  lock_each-Locked fuel timeout got we (d ∷ rest) w m P B =
      let e = append_assoc we (d ∷ []) rest in
      step fuel timeout got we d rest w m B (lock_one F fuel timeout m d) refl
        (lock_one-Locked F H fuel timeout m d P)
        (λ m' g o.
          subst (λ l. Locked F H got l w (lock_each F fuel timeout m' (we ++ d ∷ []) rest)) e
            (lock_each-Locked fuel timeout got (we ++ d ∷ []) rest w m' P (record {
              listed = g ∙ ap (λ l. l ++ d ∷ []) B.listed ∙ append_assoc got we (d ∷ []);
              ordered = subst Ascending (sym e) B.ordered;
              new = subst (NoneIn F H got) (sym e) B.new;
              free = subst (NoneOurs F H w) (sym e) B.free;
              taken = one_more_lock we d w m.fs m'.fs B.taken o;
            })))

  -- If the clock passes the timeout after fewer sleeps than the fuel, and what this program has locked
  -- in the file system changes by its own locks and unlocks alone and can be unlocked, then `lock` of
  -- distinct directories, none of which this program has locked, comes to an end. Either all of them are
  -- locked in the file system and added to the manager's locks in sorted order, and no other of the
  -- program's locks changes; or it raises `LockFail`, and what this program has locked in the file system
  -- and what the manager lists is as it was.
  pub lock-Locked :
      (fuel timeout : ℕ) (m : LockManager D W) (ds : List D)
      → Passes F fuel timeout
      → Distinct ds
      → NoneIn F H m.got_locks ds
      → NoneOurs F H m.fs ds
      → Locked F H m.got_locks (sorted ds) m.fs (lock F fuel timeout m ds)
  unfolding lock
  lock-Locked fuel timeout m ds P d n o =
      lock_each-Locked fuel timeout m.got_locks [] (sorted ds) m.fs m P (record {
        listed = sym (append-nil m.got_locks);
        ordered = sorted-Ascending ds d;
        new = All-sorted (λ x. contains m.got_locks x ≡ false) ds n;
        free = All-sorted (λ x. H.ours m.fs x ≡ false) ds o;
        taken = λ x. refl;
      })
