-- ===== src/Storage/Local/Refinement.antt =====
-- The local backend keeps the promises of a storage backend.
use oa_libs.Storage.Traits.{no_presign, not_found, StorageError}
use oa_libs.Storage.Key.Confinement.{resolve_within-err}
use oa_libs.Base.{
  refl, true, false, ◌∙◌, some, arith, ap, ◌⊎◌, inr, ◌≡◌, inl, none, ◌≢◌, Result, ok, err,
}
use oa_libs.Storage.Local.Files.{write_file-holds, write_file-apart, FileLaws}
use oa_libs.Storage.Local.{
  write_file, at_path, read_answer, remove_answer, local_backend, IoError, no_such_file,
  other_failure, FileSystem, LocalBackend,
}
use oa_libs.Storage.Traits.Contract.{Honours}
use oa_libs.Storage.Local.Subject.{at_key, Apart, subject}
use oa_libs.Storage.Local.Errors.{put-Meets, get-Meets, delete-Meets, exists-Meets}
use oa_libs.Std.Text.{Text}
use oa_libs.Std.Utf8.{Bytes}
use oa_libs.Storage.Key.{resolve_within}

module _ {State : Type 0} (F : FileSystem State) (L : FileLaws F) (b : LocalBackend) where
  open L use {place, content}

  put_holds :
      (r : Result Text StorageError) (body : Bytes) (s : State)
      → (at_path r (write_file F body) s).0 ≡ ok tt
      → at_key none (λ path. content (at_path r (write_file F body) s).1 (place path)) r ≡ some body
  put_holds (ok path) body s h = write_file-holds F L body path s h
  put_holds (err e) body s h = absurd (cc)

  put_leaves :
      (r r' : Result Text StorageError) (body : Bytes) (s : State)
      → Apart F L b r r'
      → at_key none (λ path. content (at_path r (write_file F body) s).1 (place path)) r'
        ≡ at_key none (λ path. content s (place path)) r'
  put_leaves (ok p) (ok q) body s n = write_file-apart F L body p s (place q) n
  put_leaves (ok p) (err e) body s n = refl
  put_leaves (err e) (ok q) body s n = refl
  put_leaves (err e) (err e') body s n = refl

  read_answer-ok :
      (key : Text) (m : Result Bytes IoError × State) {body : Bytes}
      → (read_answer F key m).0 ≡ ok body
      → m.0 ≡ ok body
  unfolding read_answer
  read_answer-ok key (ok bytes, s) h = ground arith
  read_answer-ok key (err (no_such_file shown), s) h = absurd (cc)
  read_answer-ok key (err (other_failure shown), s) h = absurd (cc)

  read_answer-missing :
      (key about : Text) (m : Result Bytes IoError × State)
      → (read_answer F key m).0 ≡ err (not_found about)
      → (shown : Text) × (m.0 ≡ err (no_such_file shown))
  unfolding read_answer
  read_answer-missing key about (ok bytes, s) h = absurd (cc)
  read_answer-missing key about (err (no_such_file shown), s) h = (shown, refl)
  read_answer-missing key about (err (other_failure shown), s) h = absurd (cc)

  read_answer-state :
      (key : Text) (m : Result Bytes IoError × State) → (read_answer F key m).1 ≡ m.1
  unfolding read_answer
  read_answer-state key (ok bytes, s) = refl
  read_answer-state key (err (no_such_file shown), s) = refl
  read_answer-state key (err (other_failure shown), s) = refl

  remove_answer-ok :
      (m : Result (Unit {0}) IoError × State)
      → (remove_answer F m).0 ≡ ok tt
      → (m.0 ≡ ok tt) ⊎ ((shown : Text) × (m.0 ≡ err (no_such_file shown)))
  unfolding remove_answer
  remove_answer-ok (ok a, s) h = inl refl
  remove_answer-ok (err (no_such_file shown), s) h = inr (shown, refl)
  remove_answer-ok (err (other_failure shown), s) h = absurd (cc)

  remove_answer-state : (m : Result (Unit {0}) IoError × State) → (remove_answer F m).1 ≡ m.1
  unfolding remove_answer
  remove_answer-state (ok a, s) = refl
  remove_answer-state (err (no_such_file shown), s) = refl
  remove_answer-state (err (other_failure shown), s) = refl

  remove_answer-quiet :
      (about : Text) (m : Result (Unit {0}) IoError × State)
      → (remove_answer F m).0 ≢ err (not_found about)
  unfolding remove_answer
  remove_answer-quiet about (ok a, s) h = cc
  remove_answer-quiet about (err (no_such_file shown), s) h = cc
  remove_answer-quiet about (err (other_failure shown), s) h = cc

  get_finds :
      (key : Text) (r : Result Text StorageError) (s : State) {body : Bytes}
      → (at_path r (λ path t. read_answer F key (F.read path t)) s).0 ≡ ok body
      → at_key none (λ path. content s (place path)) r ≡ some body
  get_finds key (ok path) s h = L.read-ok path _ s (read_answer-ok key (F.read path s) h)
  get_finds key (err e) s h = absurd (cc)

  get_misses :
      (key about : Text) (r : Result Text StorageError) (s : State)
      → (at_path r (λ path t. read_answer F key (F.read path t)) s).0 ≡ err (not_found about)
      → at_key none (λ path. content s (place path)) r ≡ none
  get_misses key about (ok path) s h =
      let (shown, e) = read_answer-missing key about (F.read path s) h in
      L.read-missing path shown s e
  get_misses key about (err e) s h = refl

  get_leaves :
      (key : Text) (r r' : Result Text StorageError) (s : State)
      → at_key none
          (λ path. content (at_path r (λ p t. read_answer F key (F.read p t)) s).1 (place path))
          r'
        ≡ at_key none (λ path. content s (place path)) r'
  get_leaves key (ok p) (ok q) s =
      ap (λ t. content t (place q)) (read_answer-state key (F.read p s))
      ∙ L.read-keeps p s (place q)
  get_leaves key (ok p) (err e) s = refl
  get_leaves key (err e) (ok q) s = refl
  get_leaves key (err e) (err e') s = refl

  delete_empties :
      (r : Result Text StorageError) (s : State)
      → (at_path r (λ path t. remove_answer F (F.remove_file path t)) s).0 ≡ ok tt
      → at_key none
          (λ path.
            content (at_path r (λ p t. remove_answer F (F.remove_file p t)) s).1 (place path))
          r
        ≡ none
  delete_empties (ok path) s h =
      ap (λ t. content t (place path)) (remove_answer-state (F.remove_file path s))
      ∙ elim (remove_answer-ok (F.remove_file path s) h) [
        | inl done ↦ L.remove_file-ok path s done
        | inr (shown, missing) ↦ L.remove_file-missing path shown s missing
      ]
  delete_empties (err e) s h = refl

  delete_leaves :
      (r r' : Result Text StorageError) (s : State)
      → Apart F L b r r'
      → at_key none
          (λ path.
            content (at_path r (λ p t. remove_answer F (F.remove_file p t)) s).1 (place path))
          r'
        ≡ at_key none (λ path. content s (place path)) r'
  delete_leaves (ok p) (ok q) s n =
      ap (λ t. content t (place q)) (remove_answer-state (F.remove_file p s))
      ∙ L.remove_file-apart p s (place q) n
  delete_leaves (ok p) (err e) s n = refl
  delete_leaves (err e) (ok q) s n = refl
  delete_leaves (err e) (err e') s n = refl

  delete_stays_quiet :
      (about : Text) (r : Result Text StorageError) (s : State)
      → ((e : StorageError) → r ≡ err e → e ≢ not_found about)
      → (at_path r (λ path t. remove_answer F (F.remove_file path t)) s).0 ≢ err (not_found about)
  delete_stays_quiet about (ok path) s n h = remove_answer-quiet about (F.remove_file path s) h
  delete_stays_quiet about (err e) s n h = n e refl (cc)

  delete_is_quiet :
      (key about : Text) (s : State)
      → (at_path (resolve_within b.root key) (λ path t. remove_answer F (F.remove_file path t)) s).0
        ≢ err (not_found about)
  delete_is_quiet key about s =
      delete_stays_quiet about (resolve_within b.root key) s
        λ e invalid named. let same = resolve_within-err b.root key e invalid in cc

  exists_finds :
      (r : Result Text StorageError) (s : State)
      → (at_path r (λ path t. (ok (F.exists path t), t)) s).0 ≡ ok true
      → at_key ⊥
          (λ path.
            ((body : Bytes) × (content s (place path) ≡ some body)) ⊎ L.IsTaken s (place path))
          r
  exists_finds (ok path) s h = L.exists-true path s (ground arith)
  exists_finds (err e) s h = absurd (cc)

  exists_misses :
      (r : Result Text StorageError) (s : State)
      → (at_path r (λ path t. (ok (F.exists path t), t)) s).0 ≡ ok false
      → at_key ⊥ (λ path. (content s (place path) ≡ none) ⊎ L.IsHidden s path) r
  exists_misses (ok path) s h = L.exists-false path s (ground arith)
  exists_misses (err e) s h = absurd (cc)

  exists_leaves :
      (r r' : Result Text StorageError) (s : State)
      → at_key none
          (λ path. content (at_path r (λ p t. (ok (F.exists p t), t)) s).1 (place path))
          r'
        ≡ at_key none (λ path. content s (place path)) r'
  exists_leaves (ok p) r' s = refl
  exists_leaves (err e) r' s = refl

  taken_or_stored :
      (r : Result Text StorageError) (s : State)
      → at_key ⊥
          (λ path.
            ((body : Bytes) × (content s (place path) ≡ some body)) ⊎ L.IsTaken s (place path))
          r
      → ((body : Bytes) × (at_key none (λ path. content s (place path)) r ≡ some body))
        ⊎ at_key ⊥ (λ path. L.IsTaken s (place path)) r
  taken_or_stored (ok path) s h = h
  taken_or_stored (err e) s h = absurd h

  hidden_or_missing :
      (r : Result Text StorageError) (s : State)
      → at_key ⊥ (λ path. (content s (place path) ≡ none) ⊎ L.IsHidden s path) r
      → (at_key none (λ path. content s (place path)) r ≡ none)
        ⊎ at_key ⊥ (λ path. L.IsHidden s path) r
  hidden_or_missing (ok path) s h = h
  hidden_or_missing (err e) s h = absurd h

  -- On any file system that behaves as documented, where a key stands for the file at its path below the
  -- root and an invalid key for nothing: what `put` has written is what is stored, and other files are
  -- left alone, also where it fails; `get` answers what is stored, and NotFound only for what is not;
  -- behind a `delete` that succeeds nothing is stored, and a missing file is no error; `exists` is
  -- true only of a file or of what else stands there, and false only where no file is or its metadata
  -- cannot be read; and every other error is that of the key or of a call of the file system.
  pub local_backend-Honours : Honours (local_backend F b) (subject F L b)
  unfolding local_backend no_presign
  local_backend-Honours = record {
    put_ok = λ key body kind s. put_holds (resolve_within b.root key) body s;
    put_apart = λ key other body kind s.
        put_leaves (resolve_within b.root key) (resolve_within b.root other) body s;
    get_ok = λ key body s. get_finds key (resolve_within b.root key) s;
    get_missing = λ key about s. get_misses key about (resolve_within b.root key) s;
    get_keeps =
        λ key other s. get_leaves key (resolve_within b.root key) (resolve_within b.root other) s;
    delete_ok = λ key s. delete_empties (resolve_within b.root key) s;
    delete_apart =
        λ key other s. delete_leaves (resolve_within b.root key) (resolve_within b.root other) s;
    delete_quiet = delete_is_quiet;
    exists_true = λ key s h.
        taken_or_stored (resolve_within b.root key) s
          (exists_finds (resolve_within b.root key) s h);
    exists_false = λ key s h.
        hidden_or_missing (resolve_within b.root key) s
          (exists_misses (resolve_within b.root key) s h);
    put_err = λ key body kind e s. put-Meets F L b (resolve_within b.root key) body e s;
    get_err = λ key e s. get-Meets F L b key (resolve_within b.root key) e s;
    delete_err = λ key e s. delete-Meets F L b (resolve_within b.root key) e s;
    exists_err = λ key e s. exists-Meets F L b (resolve_within b.root key) e s;
    exists_keeps =
        λ key other s. exists_leaves (resolve_within b.root key) (resolve_within b.root other) s;
    presign_put_keeps = λ key other n s. refl;
    presign_get_keeps = λ key other n s. refl;
  }
