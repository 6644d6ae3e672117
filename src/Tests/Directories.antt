-- ===== src/Tests/Directories.antt =====
-- A directory object of obnamlib/fmt_ga/dirobj.py with two files, whose values are numbers.
use obnam.Prelude.{some, ℕ, ◌≡◌, refl, true, false, some, [], ◌∷◌}
use obnam.Prelude.Keys.{nat_eq, list_eq}
use obnam.Prelude.Dict.{has}
use obnam.Directories.Directory.{
  Directory, File, mode, get_short_key_name, get_key_from_short_name, add_file,
}
use obnam.Directories.Changes.{
  adds_file, call, call-immutable, get_key_from_short_name-get_short_key_name,
}

abbrev file : File ℕ
file = record { chunk_ids = (b'3' ∷ []) ∷ []; values = (b'M' ∷ [], some 420) ∷ [] }

abbrev dir : Directory ℕ
dir = record { metadata = (b'a' ∷ [], file) ∷ (b'b' ∷ [], file) ∷ []; subdirs = []; mutable = true }

abbrev frozen : Directory ℕ
frozen = record dir { mutable = false }

-- a file that is there already is added without a change
call-immutable_example : frozen ≡ frozen
call-immutable_example =
    call-immutable frozen frozen (adds_file (b'a' ∷ [])) refl (unfold call add_file has in refl)

get_key_from_short_name-get_short_key_name_example :
    get_key_from_short_name (get_short_key_name mode) ≡ some mode
get_key_from_short_name-get_short_key_name_example = get_key_from_short_name-get_short_key_name mode
