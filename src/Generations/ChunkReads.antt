-- ===== src/Generations/ChunkReads.antt =====
-- Reads of the chunks of files and of generations, obnamlib/fmt_ga/client.py, leave the store as it is.
use obnam.Prelude.{
  ℕ, zero, suc, ◌≡◌, refl, sym, ap, ◌∙◌, Option, none, some, List, [], ◌∷◌, ◌++◌, arith, inl, inr,
}
use obnam.Prelude.Tests.{Bool-cases, Option-cases}
use obnam.Prelude.Keys.{nat_eq, list_eq}
use obnam.Prelude.Dict.{keys, has}
use obnam.Prelude.Result.{Result, ok, raise, ◌>>=◌, bind-ok, ok-injective}
use obnam.Bag.ObjectId.{Text}
use obnam.Directories.Directory.{
  Directory, Error, get_file_basenames, get_subdir_basenames, assertion_error,
}
use obnam.Trees.Paths.{Pathname, dirname}
use obnam.Trees.Tree
use obnam.Trees.Tree.{ObjectStore, Tree}
use obnam.Trees.Views.{get_directory-Read}
use obnam.Generations.AddedFiles
use obnam.Generations.FileMetadata.{
  FileMetadata, with_tree, found_in_parent, found_or_parent, get_dir_obj,
}
use obnam.Generations.FileChunks.{
  chunks_of, get_file_chunk_ids, walk, filenames, pushed, join_all, without_dot,
}
use obnam.Generations.Client.{ClientStore}
use obnam.Generations.RemoveGeneration.{chunk_ids_of_files, chunk_ids_in}

module _ {V St : Type 0} (S : ObjectStore V St) where
  found_in_parent-store :
      (filename : Pathname) (r : Option (Directory V) × Tree V St)
      → (found_in_parent S filename r).1.store ≡ r.1.store
  found_in_parent-store filename (none, t) = refl
  found_in_parent-store filename (some d, t) = refl

  found_or_parent-store :
      (filename : Pathname) (r : Option (Directory V) × Tree V St)
      → (found_or_parent S filename r).1.store ≡ r.1.store
  found_or_parent-store filename (some d, t) = refl
  found_or_parent-store filename (none, t) =
      found_in_parent-store filename (Tree.get_directory S (dirname filename) t)
      ∙ (get_directory-Read S (dirname filename) t).store

  get_dir_obj-store :
      (fm : FileMetadata V St) (filename : Pathname)
      → (get_dir_obj S fm filename).1.tree.store ≡ fm.tree.store
  unfolding get_dir_obj
  get_dir_obj-store fm filename =
      found_or_parent-store filename (Tree.get_directory S filename fm.tree)
      ∙ (get_directory-Read S filename fm.tree).store

  pub get_file_chunk_ids-store :
      (fm fm' : FileMetadata V St) (filename : Pathname) (o : Option (List Text))
      → get_file_chunk_ids S fm filename ≡ ok (o, fm')
      → fm'.tree.store ≡ fm.tree.store
  unfolding get_file_chunk_ids
  get_file_chunk_ids-store fm fm' filename o h = elim (Bool-cases (has filename fm.added_files)) [
    | inl q ↦
        let (ids, e, k) =
          bind-ok {B = Option (List Text) × FileMetadata V St}
            (AddedFiles.get_file_chunk_ids fm.added_files filename) (λ ids. ok (some ids, fm))
            (o, fm') (ground (arith, h, q)) in
        sym (ap (λ x. x.1.tree.store) (ok-injective (some ids, fm) (o, fm') k))
    | inr q ↦
        let (found, fm1) = get_dir_obj S fm filename in
        let (ids, e, k) =
          bind-ok {B = Option (List Text) × FileMetadata V St} (chunks_of S found)
            (λ ids. ok (ids, fm1)) (o, fm') (ground (arith, h, q)) in
        sym (ap (λ x. x.1.tree.store) (ok-injective (ids, fm1) (o, fm') k))
        ∙ get_dir_obj-store fm filename
  ]

  walk-store :
      (fuel : ℕ) (stack paths : List Pathname) (t t' : Tree V St)
      → walk S fuel stack t ≡ ok (paths, t')
      → t'.store ≡ t.store
  unfolding walk
  walk-store fuel [] paths t t' h = sym (ap (λ x. x.1.store) (ok-injective ([], t) (paths, t') h))
  walk-store zero (path ∷ stack) paths t t' h = absurd (ground (arith, h))
  walk-store (suc fuel) (path ∷ stack) paths t t' h =
      let r = get_directory-Read S path t in
      let t1 = (Tree.get_directory S path t).1 in
      elim (Option-cases (Tree.get_directory S path t).0) [
        | inl e ↦ walk-store fuel stack paths t1 t' (ground (arith, h, e)) ∙ r.store
        | inr (d, e) ↦
            let ((others, t2), e', k) =
              bind-ok {B = List Pathname × Tree V St}
                (walk S fuel (pushed path (get_subdir_basenames d) stack) t1)
                (λ r. ok (path ∷ join_all S path (without_dot (get_file_basenames d)) ++ r.0, r.1))
                (paths, t') (ground (arith, h, e)) in
            sym (ap (λ x. x.1.store) (ok-injective _ (paths, t') k))
            ∙ walk-store fuel (pushed path (get_subdir_basenames d) stack) others t1 t2 e'
            ∙ r.store
      ]

  pub filenames-store :
      (fuel : ℕ) (fm fm' : FileMetadata V St) (paths : List Pathname)
      → filenames S fuel fm ≡ ok (paths, fm')
      → fm'.tree.store ≡ fm.tree.store
  unfolding filenames
  filenames-store fuel fm fm' paths h =
      let ((ps, t), e, k) =
        bind-ok (walk S fuel ([] ∷ []) fm.tree)
          (λ r. ok (keys fm.added_files ++ r.0, with_tree fm r.1)) (paths, fm') h in
      sym (
        ap (λ x. x.1.tree.store)
          (ok-injective (keys fm.added_files ++ ps, with_tree fm t) (paths, fm') k))
      ∙ walk-store fuel ([] ∷ []) ps fm.tree t e

module _ {V St : Type 0} (S : ClientStore V St) where
  -- one file of several
  more_files-store :
      (rest : List Pathname) (fm1 fm' : FileMetadata V St) (ids : List Text)
      (o : Option (List Text))
      → ((others : List Text)
          → chunk_ids_of_files S rest fm1 ≡ ok (others, fm')
          → fm'.tree.store ≡ fm1.tree.store)
      → (elim o as (λ x. Result Error (List Text × FileMetadata V St)) [
        | none ↦ raise assertion_error
        | some ids ↦ chunk_ids_of_files S rest fm1 >>= λ r. ok (ids ++ r.0, r.1)
      ])
        ≡ ok (ids, fm')
      → fm'.tree.store ≡ fm1.tree.store
  more_files-store rest fm1 fm' ids none next h = absurd (ground (arith, h))
  more_files-store rest fm1 fm' ids (some found) next h =
      let ((others, fm2), e, k) =
        bind-ok (chunk_ids_of_files S rest fm1) (λ r. ok (found ++ r.0, r.1)) (ids, fm') h in
      let same : fm2 ≡ fm' = ap (λ x. x.1) (ok-injective (found ++ others, fm2) (ids, fm') k) in
      next others (e ∙ ap (λ x. ok (others, x)) same)

  chunk_ids_of_files-store :
      (paths : List Pathname) (fm fm' : FileMetadata V St) (ids : List Text)
      → chunk_ids_of_files S paths fm ≡ ok (ids, fm')
      → fm'.tree.store ≡ fm.tree.store
  unfolding chunk_ids_of_files
  chunk_ids_of_files-store [] fm fm' ids h =
      sym (ap (λ x. x.1.tree.store) (ok-injective ([], fm) (ids, fm') h))
  chunk_ids_of_files-store (path ∷ rest) fm fm' ids h =
      let ((found, fm1), e, k) =
        bind-ok (get_file_chunk_ids S.objects fm path)
          (λ r. elim r.0 as (λ x. Result Error (List Text × FileMetadata V St)) [
            | none ↦ raise assertion_error
            | some ids ↦ chunk_ids_of_files S rest r.1 >>= λ s. ok (ids ++ s.0, s.1)
          ])
          (ids, fm') h in
      more_files-store rest fm1 fm' ids found
        (λ others g. chunk_ids_of_files-store rest fm1 fm' others g) k
      ∙ get_file_chunk_ids-store S.objects fm fm1 path found e

  pub chunk_ids_in-store :
      (fuel : ℕ) (fm fm' : FileMetadata V St) (ids : List Text)
      → chunk_ids_in S fuel fm ≡ ok (ids, fm')
      → fm'.tree.store ≡ fm.tree.store
  unfolding chunk_ids_in
  chunk_ids_in-store fuel fm fm' ids h =
      let ((paths, fm1), e, k) =
        bind-ok (filenames S.objects fuel fm) (λ r. chunk_ids_of_files S r.0 r.1) (ids, fm') h in
      chunk_ids_of_files-store paths fm1 fm' ids k ∙ filenames-store S.objects fuel fm fm1 paths e
