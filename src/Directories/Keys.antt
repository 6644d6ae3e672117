-- ===== src/Directories/Keys.antt =====
-- The file keys of obnamlib/repo_interface.py: equality, integer keys, and the keys that stand for the
-- fields of a `Metadata` object.
use obnam.Prelude.{◌≡◌, ◌↔◌, sym, ap, ◌∙◌, Bool, true, false, some, List, [], ◌∷◌}
use obnam.Prelude.Keys.{Eq, ◌==◌, nat_eq, list_eq, beq_refl, eq_of_beq}
use obnam.Directories.Directory.{
  FileKey, username, groupname, symlink_target, xattr_blob, md5, mode, mtime_sec, mtime_nsec,
  atime_sec, atime_nsec, nlink, size, uid, gid, blocks, dev, ino, sha224, sha256, sha384, sha512,
  get_short_key_name, get_key_from_short_name,
}
use obnam.Directories.Changes.{get_key_from_short_name-get_short_key_name}

some-injective : {A : Type 0} (a b : A) → some a ≡ some b → a ≡ b
some-injective a b h = cc

short_name-injective : (j k : FileKey) → get_short_key_name j ≡ get_short_key_name k → j ≡ k
short_name-injective j k h = some-injective j k (
    sym (get_key_from_short_name-get_short_key_name j)
    ∙ ap get_key_from_short_name h
    ∙ get_key_from_short_name-get_short_key_name k)

pub file_key_beq_iff :
    (j k : FileKey) → ((get_short_key_name j == get_short_key_name k) ≡ true) ↔ (j ≡ k)
file_key_beq_iff j k = (
  λ h. short_name-injective j k (eq_of_beq (get_short_key_name j) (get_short_key_name k) h),
  λ h.
      ap (λ i. get_short_key_name j == get_short_key_name i) (sym h)
      ∙ beq_refl (get_short_key_name j),
)

-- Keys are numbers in the source, and are equal just if their short names are.
instance abbrev pub file_key_eq : Eq FileKey
file_key_eq = record {
  beq = λ j k. get_short_key_name j == get_short_key_name k;
  beq_iff = file_key_beq_iff;
}

-- `key in REPO_FILE_INTEGER_KEYS`
unfoldable pub is_integer_key : FileKey → Bool
is_integer_key mode = true
is_integer_key mtime_sec = true
is_integer_key mtime_nsec = true
is_integer_key atime_sec = true
is_integer_key atime_nsec = true
is_integer_key nlink = true
is_integer_key size = true
is_integer_key uid = true
is_integer_key gid = true
is_integer_key blocks = true
is_integer_key dev = true
is_integer_key ino = true
is_integer_key _ = false

-- the keys of `metadata_file_key_mapping`
abbrev pub metadata_keys : List FileKey
metadata_keys =
    mode ∷ mtime_sec ∷ mtime_nsec ∷ atime_sec ∷ atime_nsec ∷ nlink ∷ size ∷ uid ∷ username ∷ gid
    ∷ groupname ∷ symlink_target ∷ xattr_blob ∷ blocks ∷ dev ∷ ino ∷ md5 ∷ sha224 ∷ sha256 ∷ sha384
    ∷ sha512 ∷ []
