-- ===== src/Generations/Filled.antt =====
-- What a directory object holds once an added file is put in it, `_flush_added_file` of
-- obnamlib/fmt_ga/client.py.
use mathlib.Core.List.{append_assoc, append-nil}
use obnam.Prelude.{
  ◌≡◌, refl, sym, ap, subst, ◌∙◌, true, false, Option, none, some, List, [], ◌∷◌, ◌++◌, arith, inl,
  inr,
}
use obnam.Prelude.Tests.{if◌then◌else◌, Bool-cases}
use obnam.Prelude.Lists.{All}
use obnam.Prelude.Sorted.{Distinct}
use obnam.Prelude.Keys.{Eq, ◌==◌, nat_eq, list_eq, option_eq, beq_refl, eq_of_beq}
use obnam.Prelude.Dict.{Dict, keys, get, put, has, get-put, get-put_self, get-put_other}
use obnam.Prelude.Result.{ok, ◌>>=◌}
use obnam.Bag.ObjectId.{Text}
use obnam.Directories.Directory
use obnam.Directories.Directory.{
  Directory, File, FileKey, Error, or_none, get_short_key_name, require_mutable, get_file, file_of,
  has_value, with_value,
}
use obnam.Directories.Keys.{file_key_eq}
use obnam.Generations.AddedFiles.{AddedFile}
use obnam.Generations.FileKeys.{set_keys, append_chunks, with_file}

-- the value of a key of a file
abbrev pub value_in : {V : Type 0} → File V → FileKey → Option V
value_in f key = or_none (get (get_short_key_name key) f.values)

module _ {V : Type 0} where
  -- A directory that holds a file with given chunks and values, and is as another one otherwise.
  pub record Holds (name : Text) (chunks : List Text) (value : FileKey → Option V)
      (d0 d : Directory V) : Type 0 where
    pub file : File V
    pub there : get name d.metadata ≡ some file
    pub chunk_ids : file.chunk_ids ≡ chunks
    pub values : (key : FileKey) → value_in file key ≡ value key
    pub mutable : d.mutable ≡ true
    pub others : (j : Text) → (name == j) ≡ false → get j d.metadata ≡ get j d0.metadata
    pub subdirs : d.subdirs ≡ d0.subdirs

module _ {V : Type 0} ⦃ev : Eq V⦄ where
  -- the values after a change
  abbrev pub changed_value : FileKey → Option V → (FileKey → Option V) → FileKey → Option V
  changed_value key v value k = if key == k then v else value k

  set_file_key-present :
      (d : Directory V) (name : Text) (key : FileKey) (v : Option V) (f : File V)
      → get name d.metadata ≡ some f
      → d.mutable ≡ true
      → Directory.set_file_key d name key v ≡ (
          if has_value f key v
          then ok d
          else ok (record d { metadata = put name (with_value f key v) d.metadata }))
  unfolding Directory.set_file_key require_mutable get_file
  set_file_key-present d name key v f h m = ground (arith, h, m)

  append_file_chunk_id-present :
      (d : Directory V) (name : Text) (chunk_id : Text) (f : File V)
      → get name d.metadata ≡ some f
      → d.mutable ≡ true
      → Directory.append_file_chunk_id d name chunk_id
        ≡ ok (record d {
          metadata = put name (record f { chunk_ids = f.chunk_ids ++ chunk_id ∷ [] }) d.metadata;
        })
  unfolding Directory.append_file_chunk_id require_mutable get_file
  append_file_chunk_id-present d name chunk_id f h m = ground (arith, h, m)

  value_in-with_value :
      (f : File V) (key k : FileKey) (v : Option V)
      → value_in (with_value f key v) k ≡ (if key == k then v else value_in f k)
  value_in-with_value f key k v = elim (Bool-cases (key == k)) [
    | inl c ↦ ground (arith, c, get-put (get_short_key_name key) (get_short_key_name k) v f.values)
    | inr c ↦ ground (arith, c, get-put (get_short_key_name key) (get_short_key_name k) v f.values)
  ]

  module _ (name : Text) (chunks : List Text) (value : FileKey → Option V) (d0 d : Directory V)
      (H : Holds name chunks value d0 d) where
    Holds-same :
        (key : FileKey) (v : Option V)
        → has_value H.file key v ≡ true
        → Holds name chunks (changed_value key v value) d0 d
    Holds-same key v h = record {
      file = H.file;
      there = H.there;
      chunk_ids = H.chunk_ids;
      values = λ k. elim (Bool-cases (key == k)) [
        | inr c ↦ H.values k ∙ ground (arith, c)
        | inl c ↦
            ap (λ j. value_in H.file j) (sym (eq_of_beq key k c))
            ∙ eq_of_beq (value_in H.file key) v h
            ∙ ground (arith, c)
      ];
      mutable = H.mutable;
      others = H.others;
      subdirs = H.subdirs;
    }

    Holds-put :
        (key : FileKey) (v : Option V)
        → Holds name chunks
            (changed_value key v value)
            d0
            (record d { metadata = put name (with_value H.file key v) d.metadata })
    Holds-put key v = record {
      file = with_value H.file key v;
      there = get-put_self name name (with_value H.file key v) d.metadata (beq_refl name);
      chunk_ids = H.chunk_ids;
      values = λ k.
          value_in-with_value H.file key k v ∙ ap (λ o. if key == k then v else o) (H.values k);
      mutable = H.mutable;
      others = λ j h. get-put_other name j (with_value H.file key v) d.metadata h ∙ H.others j h;
      subdirs = H.subdirs;
    }

    -- a new value under a key
    set_file_key-Holds :
        (key : FileKey) (v : Option V)
        → (d' : Directory V) × (Directory.set_file_key d name key v ≡ ok d')
          × Holds name chunks (changed_value key v value) d0 d'
    set_file_key-Holds key v = elim (Bool-cases (has_value H.file key v)) [
      | inl c ↦ (
        d,
        set_file_key-present d name key v H.file H.there H.mutable ∙ ground (arith, c),
        Holds-same key v c,
      )
      | inr c ↦ (
        record d { metadata = put name (with_value H.file key v) d.metadata },
        set_file_key-present d name key v H.file H.there H.mutable ∙ ground (arith, c),
        Holds-put key v,
      )
    ]

    append_file_chunk_id-Holds :
        (chunk_id : Text)
        → (d' : Directory V) × (Directory.append_file_chunk_id d name chunk_id ≡ ok d')
          × Holds name (chunks ++ chunk_id ∷ []) value d0 d'
    append_file_chunk_id-Holds chunk_id =
        let f = record H.file { chunk_ids = H.file.chunk_ids ++ chunk_id ∷ [] } in
        (
          record d { metadata = put name f d.metadata },
          append_file_chunk_id-present d name chunk_id H.file H.there H.mutable,
          record {
            file = f;
            there = get-put_self name name f d.metadata (beq_refl name);
            chunk_ids = ap (λ cs. cs ++ chunk_id ∷ []) H.chunk_ids;
            values = H.values;
            mutable = H.mutable;
            others = λ j h. get-put_other name j f d.metadata h ∙ H.others j h;
            subdirs = H.subdirs;
          },
        )

  -- the values after changes in turn
  abbrev pub changed_values : Dict FileKey (Option V) → (FileKey → Option V) → FileKey → Option V
  changed_values [] value = value
  changed_values ((key, v) ∷ rest) value = changed_values rest (changed_value key v value)

  set_keys-Holds :
      (name : Text) (chunks : List Text) (value : FileKey → Option V) (d0 d : Directory V)
      → (file_keys : Dict FileKey (Option V)) → Holds name chunks value d0 d
      → (d' : Directory V) × (set_keys file_keys name d ≡ ok d')
        × Holds name chunks (changed_values file_keys value) d0 d'
  unfolding set_keys
  set_keys-Holds name chunks value d0 d [] H = (d, refl, H)
  set_keys-Holds name chunks value d0 d ((key, v) ∷ rest) H =
      let (d1, e, H1) = set_file_key-Holds name chunks value d0 d H key v in
      let (d2, e', H2) = set_keys-Holds name chunks (changed_value key v value) d0 d1 rest H1 in
      (d2, ap (λ r. r >>= λ d. set_keys rest name d) e ∙ e', H2)

  append_chunks-Holds :
      (name : Text) (chunks : List Text) (value : FileKey → Option V) (d0 d : Directory V)
      → (more : List Text) → Holds name chunks value d0 d
      → (d' : Directory V) × (append_chunks more name d ≡ ok d')
        × Holds name (chunks ++ more) value d0 d'
  unfolding append_chunks
  append_chunks-Holds name chunks value d0 d [] H =
      (d, refl, subst (λ cs. Holds name cs value d0 d) (sym (append-nil chunks)) H)
  append_chunks-Holds name chunks value d0 d (c ∷ more) H =
      let (d1, e, H1) = append_file_chunk_id-Holds name chunks value d0 d H c in
      let (d2, e', H2) = append_chunks-Holds name (chunks ++ c ∷ []) value d0 d1 more H1 in
      (
        d2,
        ap (λ r. r >>= λ d. append_chunks more name d) e ∙ e',
        subst (λ cs. Holds name cs value d0 d2) (append_assoc chunks (c ∷ []) more) H2,
      )

  get-missing :
      (k : FileKey) (d : Dict FileKey (Option V))
      → All (λ j. (k == j) ≡ false) (keys d)
      → get k d ≡ none
  unfolding get
  get-missing k [] h = refl
  get-missing k ((j, v) ∷ d) h =
      ground (arith, get-missing k d h.1, h.0, file_key_eq.beq_iff j k, file_key_eq.beq_iff k j)

  -- with no key twice, each key has its own value in the end
  pub changed_values-Distinct :
      (d : Dict FileKey (Option V)) (value : FileKey → Option V) (k : FileKey)
      → Distinct (keys d)
      → changed_values d value k ≡ (elim (get k d) [ none ↦ value k | some v ↦ v ])
  unfolding get
  changed_values-Distinct [] value k h = refl
  changed_values-Distinct ((key, v) ∷ d) value k h = elim (Bool-cases (key == k)) [
    | inl c ↦
        let e : get k d ≡ none =
          ap (λ j. get j d) (sym (eq_of_beq key k c)) ∙ get-missing key d h.0 in
        changed_values-Distinct d (changed_value key v value) k h.1 ∙ ground (arith, c, e)
    | inr c ↦
        changed_values-Distinct d (changed_value key v value) k h.1
        ∙ ap (λ b. elim (get k d) [ none ↦ if b then v else value k | some w ↦ w ]) c
        ∙ sym (ap (λ b. elim (if b then some v else get k d) [ none ↦ value k | some w ↦ w ]) c)
  ]

  abbrev new_file : File V
  new_file = record { chunk_ids = []; values = [] }

  add_file-Holds :
      (name : Text) (d : Directory V)
      → d.mutable ≡ true
      → has name d.metadata ≡ false
      → (d' : Directory V) × (Directory.add_file d name ≡ ok d') × Holds name [] (λ k. none) d d'
  unfolding Directory.add_file require_mutable
  add_file-Holds name d m h = (
    record d { metadata = put name new_file d.metadata },
    ground (arith, m, h),
    record {
      file = new_file;
      there = get-put_self name name new_file d.metadata (beq_refl name);
      chunk_ids = refl;
      values = λ k. unfold get in refl;
      mutable = m;
      others = λ j i. get-put_other name j new_file d.metadata i;
      subdirs = refl;
    },
  )

  -- A directory without a name is given a file of that name, with the chunks and the values of the
  -- added file.
  pub with_file-Holds :
      (name : Text) (file : AddedFile V) (d : Directory V)
      → d.mutable ≡ true
      → has name d.metadata ≡ false
      → (d' : Directory V) × (with_file name file d ≡ ok d')
        × Holds name file.chunks (changed_values file.file_keys (λ k. none)) d d'
  unfolding with_file
  with_file-Holds name file d m h =
      let (d1, e1, H1) = add_file-Holds name d m h in
      let (d2, e2, H2) = set_keys-Holds name [] (λ k. none) d d1 file.file_keys H1 in
      let (d3, e3, H3) =
        append_chunks-Holds name [] (changed_values file.file_keys (λ k. none)) d d2 file.chunks
          H2 in
      (
        d3,
        ap
              (λ r.
                r >>= λ a. set_keys file.file_keys name a >>= λ b. append_chunks file.chunks name b)
              e1
            ∙ ap (λ r. r >>= λ b. append_chunks file.chunks name b) e2
            ∙ e3,
        H3,
      )
