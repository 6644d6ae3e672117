-- ===== src/Tests/Pending.antt =====
-- A token map of obnamlib/chunkid_token_map.py, and an excluder of obnamlib/pathname_excluder.py.
use obnam.Prelude.{List, ◌++◌, ℕ, ◌≡◌, Bool, true, false, [], ◌∷◌}
use obnam.Prelude.Tests.{if◌then◌else◌}
use obnam.Prelude.Keys.{nat_eq}
use obnam.Prelude.Dict.{Dict}
use obnam.Bag.ObjectId.{Text}
use obnam.Pending.TokenMap.{lookup, add_all, ids_of, lookup-add_all}
use obnam.Pending.Excluder.{Excluder, exclude, any_found, exclude-any_found}

abbrev mapping : Dict ℕ (List ℕ)
mapping = (7, 1 ∷ []) ∷ []

abbrev more : List (ℕ × ℕ)
more = (2, 7) ∷ (3, 8) ∷ []

abbrev token : ℕ
token = 7

lookup-add_all_example :
    lookup (add_all mapping more) token ≡ lookup mapping token ++ ids_of token more
lookup-add_all_example = lookup-add_all more mapping token

-- a pattern is found where it begins with the path name's letter
abbrev starts : Text → ℕ → Bool
starts [] p = true
starts (c ∷ cs) p = nat_eq.beq c p

abbrev excluder : Excluder
excluder = record {
  exclude_patterns = (b'a' ∷ []) ∷ (b'b' ∷ []) ∷ [];
  include_patterns = (b'b' ∷ []) ∷ [];
}

exclude-any_found_example : (exclude starts excluder b'a').0 ≡ (
    if any_found starts b'a' excluder.include_patterns
    then false
    else any_found starts b'a' excluder.exclude_patterns)
exclude-any_found_example = exclude-any_found starts excluder b'a' (tt, tt) (tt, (tt, tt))
