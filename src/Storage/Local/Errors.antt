-- ===== src/Storage/Local/Errors.antt =====
-- The errors of the local backend: each is that of the key or of a call of the file system.
use oa_libs.Base.{
  ◌≡◌, ◌⊎◌, inl, inr, refl, Option, none, some, Result, ok, err, continue, continue-eq-err, arith,
}
use oa_libs.Std.Text.{Text}
use oa_libs.Std.Utf8.{Bytes}
use oa_libs.Std.Path.{parent}
use oa_libs.Storage.Traits.{StorageError, not_found, backend}
use oa_libs.Storage.Traits.Contract.{putting, getting, deleting, asking}
use oa_libs.Storage.Local.{
  IoError, no_such_file, other_failure, io_text, FileSystem, LocalBackend, to_backend, at_path,
  make_parent, fill_file, write_file, read_answer, remove_answer,
}
use oa_libs.Storage.Local.Files.{FileLaws}
use oa_libs.Storage.Local.Subject.{Meets}

to_backend-err :
    {S A : Type 0} (m : Result A IoError × S) {e : StorageError}
    → (to_backend m).0 ≡ err e
    → (f : IoError) × (e ≡ backend (io_text f)) × (m.0 ≡ err f)
to_backend-err (ok a, s) h = absurd (cc)
to_backend-err (err f, s) h = (f, ground arith, refl)

module _ {State : Type 0} (F : FileSystem State) (L : FileLaws F) (b : LocalBackend) where
  abbrev PutFails : Bytes → Text → StorageError → Type 0
  PutFails body path e =
      (f : IoError) × (e ≡ backend (io_text f))
      × ((t : State) × (((dir : Text) × ((F.create_dir_all dir t).0 ≡ err f))
            ⊎ ((F.create path t).0 ≡ err f)
            ⊎ ((file : F.File) × ((F.write_all file body t).0 ≡ err f))
            ⊎ ((file : F.File) × ((F.flush file t).0 ≡ err f))))

  make_parent-fails :
      (dir : Option Text) (body : Bytes) (path : Text) (e : StorageError) (s : State)
      → (make_parent F dir s).0 ≡ err e
      → PutFails body path e
  unfolding make_parent
  make_parent-fails none body path e s h = absurd (cc)
  make_parent-fails (some dir) body path e s h =
      let (f, same, failed) = to_backend-err (F.create_dir_all dir s) h in
      (f, same, (s, inl (dir, failed)))

  fill_file-fails :
      (body : Bytes) (path : Text) (file : F.File) (e : StorageError) (s : State)
      → (fill_file F body file s).0 ≡ err e
      → PutFails body path e
  unfolding fill_file
  fill_file-fails body path file e s h =
      let written = to_backend (F.write_all file body s) in
      elim (continue-eq-err written (λ _ s'. to_backend (F.flush file s')) h) [
        | inl early ↦
            let (f, same, failed) = to_backend-err (F.write_all file body s) early in
            (f, same, (s, inr (inr (inl (file, failed)))))
        | inr (u, took, late) ↦
            let (f, same, failed) = to_backend-err (F.flush file written.1) late in
            (f, same, (written.1, inr (inr (inr (file, failed)))))
      ]

  create-fails :
      (body : Bytes) (path : Text) (e : StorageError) (s : State)
      → (continue (to_backend (F.create path s)) (fill_file F body)).0 ≡ err e
      → PutFails body path e
  create-fails body path e s h =
      elim (continue-eq-err (to_backend (F.create path s)) (fill_file F body) h) [
        | inl early ↦
            let (f, same, failed) = to_backend-err (F.create path s) early in
            (f, same, (s, inr (inl failed)))
        | inr (file, made, late) ↦ fill_file-fails body path file e _ late
      ]

  write_file-fails :
      (body : Bytes) (path : Text) (e : StorageError) (s : State)
      → (write_file F body path s).0 ≡ err e
      → PutFails body path e
  unfolding write_file
  write_file-fails body path e s h =
      let rest =
        λ (_ : Unit {0}) (t : State). continue (to_backend (F.create path t)) (fill_file F body) in
      elim (continue-eq-err (make_parent F (parent path) s) rest h) [
        | inl early ↦ make_parent-fails (parent path) body path e s early
        | inr (u, made, late) ↦ create-fails body path e _ late
      ]

  pub put-Meets :
      (r : Result Text StorageError) (body : Bytes) (e : StorageError) (s : State)
      → (at_path r (write_file F body) s).0 ≡ err e
      → Meets F L b (putting body) s e r
  put-Meets (ok path) body e s h = write_file-fails body path e s h
  put-Meets (err invalid) body e s h = ground arith

  read_answer-err :
      (key : Text) (m : Result Bytes IoError × State) (e : StorageError)
      → (read_answer F key m).0 ≡ err e
      → ((about : Text) × (e ≡ not_found about))
        ⊎ ((shown : Text) × (m.0 ≡ err (other_failure shown)) × (e ≡ backend shown))
  unfolding read_answer
  read_answer-err key (ok bytes, s) e h = absurd (cc)
  read_answer-err key (err (no_such_file shown), s) e h = inl (key, ground arith)
  read_answer-err key (err (other_failure shown), s) e h = inr (shown, refl, ground arith)

  pub get-Meets :
      (key : Text) (r : Result Text StorageError) (e : StorageError) (s : State)
      → (at_path r (λ path t. read_answer F key (F.read path t)) s).0 ≡ err e
      → ((about : Text) × (e ≡ not_found about)) ⊎ Meets F L b getting s e r
  get-Meets key (ok path) e s h = elim (read_answer-err key (F.read path s) e h) [
    | inl missing ↦ inl missing
    | inr (shown, failed, same) ↦ inr (other_failure shown, same, (failed, (shown, refl)))
  ]
  get-Meets key (err invalid) e s h = inr (ground arith)

  remove_answer-err :
      (m : Result (Unit {0}) IoError × State) (e : StorageError)
      → (remove_answer F m).0 ≡ err e
      → (shown : Text) × (m.0 ≡ err (other_failure shown)) × (e ≡ backend shown)
  unfolding remove_answer
  remove_answer-err (ok a, s) e h = absurd (cc)
  remove_answer-err (err (no_such_file shown), s) e h = absurd (cc)
  remove_answer-err (err (other_failure shown), s) e h = (shown, refl, ground arith)

  pub delete-Meets :
      (r : Result Text StorageError) (e : StorageError) (s : State)
      → (at_path r (λ path t. remove_answer F (F.remove_file path t)) s).0 ≡ err e
      → Meets F L b deleting s e r
  delete-Meets (ok path) e s h =
      let (shown, failed, same) = remove_answer-err (F.remove_file path s) e h in
      (other_failure shown, same, (failed, (shown, refl)))
  delete-Meets (err invalid) e s h = ground arith

  pub exists-Meets :
      (r : Result Text StorageError) (e : StorageError) (s : State)
      → (at_path r (λ path t. (ok (F.exists path t), t)) s).0 ≡ err e
      → Meets F L b asking s e r
  exists-Meets (ok path) e s h = absurd (cc)
  exists-Meets (err invalid) e s h = ground arith
