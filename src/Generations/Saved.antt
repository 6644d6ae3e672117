-- ===== src/Generations/Saved.antt =====
-- What `_save_file_metadata` of obnamlib/fmt_ga/client.py leaves of the trees of a client.
use obnam.Prelude.{◌≡◌, refl, sym, ap, subst, ◌∙◌, some, List, [], ◌∷◌, arith, inl, inr}
use obnam.Prelude.Tests.{Bool-cases}
use obnam.Prelude.Lists.{All}
use obnam.Prelude.Dict.{has}
use obnam.Trees.Tree
use obnam.Trees.Tree.{Tree, fixup_subdir_refs, depth, flushed}
use obnam.Generations.AddedFiles.{AddedFiles}
use obnam.Generations.FileMetadata.{FileMetadata}
use obnam.Prelude.Keys.{nat_eq, list_eq}
use obnam.Prelude.Result.{Result, ok, raise, ◌>>=◌, bind-ok, ok-injective}
use obnam.Directories.Directory
use obnam.Directories.Directory.{or_none}
use obnam.Generations.FileMetadata
use obnam.Generations.Generation.{Generation, opened, files_of}
use obnam.Generations.Client.{ClientStore, Client, ClientError, lift, save_files, flush}

module _ {V St : Type 0} (S : ClientStore V St) where
  -- a generation whose files are stored under the root that is noted for it
  abbrev pub Saved : Generation V → Type 0
  Saved g = (g.root_object_id ≡ g.files.root_dir_id) × (g.files.cache ≡ [])

  tree_flush-cleared : (t t' : Tree V St) → Tree.flush S.objects t ≡ ok t' → t'.cache ≡ []
  unfolding Tree.flush
  tree_flush-cleared t t' h = elim (Bool-cases (has [] t.cache)) [
    | inl q ↦
        let (r, e, k) =
          bind-ok (fixup_subdir_refs S.objects (depth S.objects t.cache) t.cache [] t.store)
            (λ r. ok (flushed S.objects t (some r.0) r.1)) t' (ground (arith, h, q)) in
        sym
          (ap (λ (x : Tree V St). x.cache) (ok-injective (flushed S.objects t (some r.0) r.1) t' k))
    | inr q ↦
        let k : ◌≡◌ {A = Result Directory.Error (Tree V St)}
            (ok (flushed S.objects t t.root_dir_id t.store)) (ok t') =
          ground (arith, h, q) in
        sym (
          ap (λ (x : Tree V St). x.cache)
            (ok-injective (flushed S.objects t t.root_dir_id t.store) t' k))
  ]

  files_flush-cleared :
      (tree : Tree V St) (added : AddedFiles V) (fm' : FileMetadata V St)
      → FileMetadata.flush S.objects (record { tree = tree; added_files = added }) ≡ ok fm'
      → fm'.tree.cache ≡ []
  unfolding FileMetadata.flush
  files_flush-cleared tree [] fm' h =
      let (t', e, k) =
        bind-ok (Tree.flush S.objects tree) (λ t. ok (record { tree = t; added_files = [] })) fm'
          h in
      let same = ok-injective (record { tree = t'; added_files = [] }) fm' k in
      sym (ap (λ (x : FileMetadata V St). x.tree.cache) same) ∙ tree_flush-cleared tree t' e
  files_flush-cleared tree (f ∷ fs) fm' h = absurd (ground (arith, h))

  save_files-Saved :
      (gs gs' : List (Generation V)) (st st' : St)
      → save_files S gs st ≡ ok (gs', st')
      → All Saved gs'
  unfolding save_files
  save_files-Saved [] gs' st st' h =
      subst (All Saved) (ap (λ x. x.0) (ok-injective ([], st) (gs', st') h)) tt
  save_files-Saved (g ∷ gs) gs' st st' h =
      let (fm, e, k) =
        bind-ok (FileMetadata.flush S.objects (opened st g.files))
          (λ fm. save_files S gs fm.tree.store >>= λ r.
            ok (record g { root_object_id = fm.tree.root_dir_id; files = files_of fm } ∷ r.0, r.1))
          (gs', st') h in
      let ((others, st1), e', k') =
        bind-ok (save_files S gs fm.tree.store)
          (λ r.
            ok (record g { root_object_id = fm.tree.root_dir_id; files = files_of fm } ∷ r.0, r.1))
          (gs', st') k in
      let first : Generation V = record g {
        root_object_id = fm.tree.root_dir_id;
        files = files_of fm;
      } in
      subst (All Saved) (ap (λ x. x.0) (ok-injective (first ∷ others, st1) (gs', st') k')) (
        (refl, files_flush-cleared (opened st g.files).tree g.files.added_files fm e),
        save_files-Saved gs others fm.tree.store st1 e',
      )

  pub lift-ok :
      {A : Type 0} (r : Result Directory.Error A) (a : A)
      → (let l : Result ClientError A = lift r in l ≡ ok a)
      → r ≡ ok a
  lift-ok (ok b) a h = ap (λ x. ok x) (ok-injective b a h)
  lift-ok (raise e) a h = absurd (ground (arith, h))

  pub flush-Saved : (c c' : Client V St) → flush S c ≡ ok c' → All Saved c'.generations
  unfolding flush
  flush-Saved c c' h =
      let ((gs, st), e, k) =
        bind-ok (lift (save_files S c.generations c.store))
          (λ r. ok (record c { generations = r.0; store = r.1 })) c' h in
      let same : record c { generations = gs; store = st } ≡ c' =
        ok-injective (record c { generations = gs; store = st }) c' k in
      subst (λ (x : Client V St). All Saved x.generations) same
        (save_files-Saved c.generations gs c.store st
          (lift-ok (save_files S c.generations c.store) (gs, st) e))
