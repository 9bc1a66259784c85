-- ===== src/Storage/Local/Files.antt =====
-- What the local backend relies on in the file system, and what writing a file does there.
use oa_libs.Base.{
  true, false, ◌⊎◌, Option, none, some, [], ◌++◌, ◌≡◌, ◌≢◌, refl, sym, ap, ◌∙◌, Result, ok, err,
  continue, continue-eq-ok, continue-keeps, arith,
}
use oa_libs.Std.Text.{Text}
use oa_libs.Std.Utf8.{Bytes}
use oa_libs.Std.Path.{parent}
use oa_libs.Storage.Local.{
  IoError, no_such_file, FileSystem, to_backend, make_parent, fill_file, write_file,
}

-- The documented behaviour of the calls: the place that a path leads to, the content of the file at a
-- place, and what each call changes. Any call may fail; what holds of a failure is stated too.
pub record FileLaws {State : Type 0} (F : FileSystem State) : Type 1 where
  pub Place : Type 0
  pub place : Text → Place
  pub content : State → Place → Option Bytes
  pub target : F.File → Place
  -- The bytes that were written through a file since it was opened; some may still be in its buffer.
  pub written : State → F.File → Bytes
  -- What stands at a place and is no file, such as a directory.
  pub IsTaken : State → Place → Type 0
  -- The metadata of the path cannot be read.
  pub IsHidden : State → Text → Type 0
  pub create_dir_all-keeps :
      (dir : Text) (s : State) (q : Place) → content (F.create_dir_all dir s).1 q ≡ content s q
  -- `File::create` opens the file at the path anew.
  pub create-target :
      (path : Text) (f : F.File) (s : State) → (F.create path s).0 ≡ ok f → target f ≡ place path
  pub create-unwritten :
      (path : Text) (f : F.File) (s : State)
      → (F.create path s).0 ≡ ok f
      → written (F.create path s).1 f ≡ []
  pub create-apart :
      (path : Text) (s : State) (q : Place)
      → place path ≢ q
      → content (F.create path s).1 q ≡ content s q
  -- `write_all` takes the bytes; how many of them are in the file when it returns is not said.
  pub write_all-takes :
      (f : F.File) (bytes : Bytes) (s : State)
      → (F.write_all f bytes s).0 ≡ ok tt
      → written (F.write_all f bytes s).1 f ≡ written s f ++ bytes
  pub write_all-apart :
      (f : F.File) (bytes : Bytes) (s : State) (q : Place)
      → target f ≢ q
      → content (F.write_all f bytes s).1 q ≡ content s q
  -- Behind `flush` all bytes that were written are in the file.
  pub flush-fills :
      (f : F.File) (s : State)
      → (F.flush f s).0 ≡ ok tt
      → content (F.flush f s).1 (target f) ≡ some (written s f)
  pub flush-apart :
      (f : F.File) (s : State) (q : Place) → target f ≢ q → content (F.flush f s).1 q ≡ content s q
  pub read-ok :
      (path : Text) (bytes : Bytes) (s : State)
      → (F.read path s).0 ≡ ok bytes
      → content s (place path) ≡ some bytes
  pub read-missing :
      (path shown : Text) (s : State)
      → (F.read path s).0 ≡ err (no_such_file shown)
      → content s (place path) ≡ none
  pub read-keeps : (path : Text) (s : State) (q : Place) → content (F.read path s).1 q ≡ content s q
  pub remove_file-ok :
      (path : Text) (s : State)
      → (F.remove_file path s).0 ≡ ok tt
      → content (F.remove_file path s).1 (place path) ≡ none
  pub remove_file-missing :
      (path shown : Text) (s : State)
      → (F.remove_file path s).0 ≡ err (no_such_file shown)
      → content (F.remove_file path s).1 (place path) ≡ none
  pub remove_file-apart :
      (path : Text) (s : State) (q : Place)
      → place path ≢ q
      → content (F.remove_file path s).1 q ≡ content s q
  -- `Path::exists` is also true of a directory, and false where the metadata cannot be read.
  pub exists-true :
      (path : Text) (s : State)
      → F.exists path s ≡ true
      → ((bytes : Bytes) × (content s (place path) ≡ some bytes)) ⊎ IsTaken s (place path)
  pub exists-false :
      (path : Text) (s : State)
      → F.exists path s ≡ false
      → (content s (place path) ≡ none) ⊎ IsHidden s path

to_backend-ok :
    {S A : Type 0} (m : Result A IoError × S) {a : A} → (to_backend m).0 ≡ ok a → m.0 ≡ ok a
to_backend-ok (ok b, s) h = ground arith
to_backend-ok (err e, s) h = absurd (cc)

to_backend-state : {S A : Type 0} (m : Result A IoError × S) → (to_backend m).1 ≡ m.1
to_backend-state (ok b, s) = refl
to_backend-state (err e, s) = refl

module _ {State : Type 0} (F : FileSystem State) (L : FileLaws F) where
  open L use {Place, place, content, target}

  abbrev ContentIs : Place → Option Bytes → State → Type 0
  ContentIs q o s = content s q ≡ o

  make_parent-keeps :
      (dir : Option Text) (s : State) (q : Place) → content (make_parent F dir s).1 q ≡ content s q
  unfolding make_parent
  make_parent-keeps none s q = refl
  make_parent-keeps (some dir) s q =
      ap (λ t. content t q) (to_backend-state (F.create_dir_all dir s))
      ∙ L.create_dir_all-keeps dir s q

  via :
      {A : Type 0} (m : Result A IoError × State) (q : Place) {o o' : Option Bytes}
      → content m.1 q ≡ o
      → o ≡ o'
      → content (to_backend m).1 q ≡ o'
  via m q h k = ap (λ t. content t q) (to_backend-state m) ∙ h ∙ k

  fill_file-apart :
      (body : Bytes) (f : F.File) (s : State) (q : Place)
      → target f ≢ q
      → content (fill_file F body f s).1 q ≡ content s q
  unfolding fill_file
  fill_file-apart body f s q n =
      continue-keeps (ContentIs q (content s q)) (to_backend (F.write_all f body s)) _
        (via (F.write_all f body s) q (L.write_all-apart f body s q n) refl)
        λ _ s' _ h. via (F.flush f s') q (L.flush-apart f s' q n) h

  -- Writing one file leaves the files at all other places alone, also where it fails half way.
  pub write_file-apart :
      (body : Bytes) (path : Text) (s : State) (q : Place)
      → place path ≢ q
      → content (write_file F body path s).1 q ≡ content s q
  unfolding write_file
  write_file-apart body path s q n =
      continue-keeps (ContentIs q (content s q)) (make_parent F (parent path) s) _
        (make_parent-keeps (parent path) s q)
        λ _ s₁ _ h₁.
          continue-keeps (ContentIs q (content s q)) (to_backend (F.create path s₁)) _
            (via (F.create path s₁) q (L.create-apart path s₁ q n) h₁)
            λ f s₂ made h₂.
              fill_file-apart body f s₂ q (λ e.
                n (sym (L.create-target path f s₁ (to_backend-ok (F.create path s₁) made)) ∙ e))
              ∙ h₂

  fill_file-holds :
      (body : Bytes) (f : F.File) (s : State)
      → L.written s f ≡ []
      → (fill_file F body f s).0 ≡ ok tt
      → content (fill_file F body f s).1 (target f) ≡ some body
  unfolding fill_file
  fill_file-holds body f s fresh h =
      let written = F.write_all f body s in
      let (_, wrote, rest) =
        continue-eq-ok (to_backend written) (λ _ s'. to_backend (F.flush f s')) h in
      let s' = (to_backend written).1 in
      let flushed = F.flush f s' in
      let done = to_backend-ok flushed (ap (λ r. r.0) (sym rest) ∙ h) in
      let taken : L.written s' f ≡ body =
        ap (λ t. L.written t f) (to_backend-state written)
        ∙ L.write_all-takes f body s (to_backend-ok written wrote)
        ∙ ap (λ bytes. bytes ++ body) fresh in
      ap (λ r. content r.1 (target f)) rest
      ∙ via flushed (target f) (L.flush-fills f s' done) (ap some taken)

  created_holds :
      (body : Bytes) (path : Text) (s : State)
      → (continue (to_backend (F.create path s)) (fill_file F body)).0 ≡ ok tt
      → content (continue (to_backend (F.create path s)) (fill_file F body)).1 (place path)
        ≡ some body
  created_holds body path s h =
      let created = F.create path s in
      let (f, made, rest) = continue-eq-ok (to_backend created) (fill_file F body) h in
      let made' = to_backend-ok created made in
      let here = L.create-target path f s made' in
      let s' = (to_backend created).1 in
      let fresh : L.written s' f ≡ [] =
        ap (λ t. L.written t f) (to_backend-state created) ∙ L.create-unwritten path f s made' in
      ap (λ r. content r.1 (place path)) rest
      ∙ ap (content (fill_file F body f s').1) (sym here)
      ∙ fill_file-holds body f s' fresh (ap (λ r. r.0) (sym rest) ∙ h)

  -- A file that was written holds the bytes that were given.
  pub write_file-holds :
      (body : Bytes) (path : Text) (s : State)
      → (write_file F body path s).0 ≡ ok tt
      → content (write_file F body path s).1 (place path) ≡ some body
  unfolding write_file
  write_file-holds body path s h =
      let dirs = make_parent F (parent path) s in
      let rest = λ (_ : Unit {0}) (s' : State).
        continue (to_backend (F.create path s')) (fill_file F body) in
      let (_, made, same) = continue-eq-ok dirs rest h in
      ap (λ r. content r.1 (place path)) same
      ∙ created_holds body path dirs.1 (ap (λ r. r.0) (sym same) ∙ h)
