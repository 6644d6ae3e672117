-- ===== src/Generations/Commits.antt =====
-- `commit` of `GAClient` in obnamlib/fmt_ga/client.py, and what a client reads that is opened after it.
use obnam.Prelude.{ℕ, ◌≡◌, Bool, true, false, none, some, List, [], ◌∷◌, map}
use obnam.Prelude.Lists.{All}
use obnam.Generations.FileMetadata.{FileMetadata}
use obnam.Prelude.Keys.{nat_eq, list_eq}
use obnam.Generations.FileMetadata
use obnam.Generations.Generation.{Generation, Keys, ended, get_key, as_dict, from_dict, get_latest}
use obnam.Generations.Client.{ClientStore, Client, algorithm_of, finish_latest, is_finished}
use obnam.Generations.Saved.{Saved}

module _ {V : Type 0} where
  -- what a flush leaves of a generation
  abbrev pub head : Generation V → ℕ × Keys
  head g = (g.gen_number, g.gen_keys)

abbrev has_ended : ℕ × Keys → Bool
has_ended (n, keys) = elim (get_key keys ended) [ none ↦ false | some v ↦ true ]

-- whether the last one, if there is one, has ended
abbrev last_ended : List (ℕ × Keys) → Bool
last_ended [] = true
last_ended (x ∷ []) = has_ended x
last_ended (x ∷ y ∷ ys) = last_ended (y ∷ ys)

module _ {V St : Type 0} (S : ClientStore V St) where
  -- the generations that are read from what is stored
  abbrev stored_generations : List (Generation V) → List (Generation V)
  stored_generations gs = map from_dict (map as_dict gs)

  -- What a client reads that is opened on the store of another.
  pub record Reloaded (c r : Client V St) : Type 0 where
    pub checksum : r.checksum_algorithm ≡ some (algorithm_of S c.checksum_algorithm)
    pub keys : r.client_keys ≡ c.client_keys
    pub generations : map as_dict r.generations ≡ map as_dict c.generations
    pub roots :
        map (λ g. g.files.root_dir_id) r.generations ≡ map (λ g. g.files.root_dir_id) c.generations
    pub unread : All (λ g. g.files.cache ≡ []) r.generations
    pub finished : is_finished S (get_latest r.generations) ≡ true

  -- the client that is flushed in a commit
  abbrev pub ending : Client V St → Client V St
  ending c = record c { generations = finish_latest S c.current_time c.generations }
