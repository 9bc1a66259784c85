-- ===== src/Storage/Local/Subject.antt =====
-- What the local backend says of itself: the file that a key stands for, and what its operations may meet.
use oa_libs.Base.{◌≡◌, ◌≢◌, ◌⊎◌, Option, none, Result, ok, err}
use oa_libs.Std.Text.{Text}
use oa_libs.Std.Utf8.{Bytes}
use oa_libs.Storage.Traits.{StorageError, backend}
use oa_libs.Storage.Traits.Contract.{Operation, putting, getting, deleting, asking, Subject}
use oa_libs.Storage.Key.{resolve_within}
use oa_libs.Storage.Local.{IoError, other_failure, io_text, FileSystem, LocalBackend}
use oa_libs.Storage.Local.Files.{FileLaws}

-- What a valid key stands for, at its path, or what an invalid key stands for.
abbrev pub at_key {ℓ} : {A : Type ℓ} → A → (Text → A) → Result Text StorageError → A
at_key a f (ok path) = f path
at_key a f (err e) = a

module _ {State : Type 0} (F : FileSystem State) (L : FileLaws F) (b : LocalBackend) where
  open L use {Place, place, content}

  -- What is stored under a key: the content of the file at its path.
  abbrev pub object : State → Text → Option Bytes
  object s key = at_key none (λ path. content s (place path)) (resolve_within b.root key)

  abbrev pub Apart : Result Text StorageError → Result Text StorageError → Type 0
  Apart (ok p) (ok q) = place p ≢ place q
  Apart _ _ = Unit

  -- Two keys are apart unless both are valid and their paths lead to the same place, as those of
  -- `a/b` and `a/./b` do.
  abbrev pub IsApart : Text → Text → Type 0
  IsApart key other = Apart (resolve_within b.root key) (resolve_within b.root other)

  -- The call of the file system that failed, at the path of the key: on the way of a `put` any of its
  -- calls; otherwise the one call, and not because the file is missing.
  abbrev pub Failed : Operation → State → Text → IoError → Type 0
  Failed (putting body) s path f =
      (t : State) × (((dir : Text) × ((F.create_dir_all dir t).0 ≡ err f))
        ⊎ ((F.create path t).0 ≡ err f)
        ⊎ ((file : F.File) × ((F.write_all file body t).0 ≡ err f))
        ⊎ ((file : F.File) × ((F.flush file t).0 ≡ err f)))
  Failed getting s path f =
      ((F.read path s).0 ≡ err f) × ((shown : Text) × (f ≡ other_failure shown))
  Failed deleting s path f =
      ((F.remove_file path s).0 ≡ err f) × ((shown : Text) × (f ≡ other_failure shown))
  Failed asking s path f = ⊥

  -- The error of an operation: that of an invalid key, or the text of what failed.
  abbrev pub Meets : Operation → State → StorageError → Result Text StorageError → Type 0
  Meets op s e (ok path) = (f : IoError) × (e ≡ backend (io_text f)) × Failed op s path f
  Meets op s e (err invalid) = e ≡ invalid

  abbrev pub subject : Subject State
  subject = record {
    object = object;
    IsApart = IsApart;
    IsTaken = λ s key. at_key ⊥ (λ path. L.IsTaken s (place path)) (resolve_within b.root key);
    IsHidden = λ s key. at_key ⊥ (λ path. L.IsHidden s path) (resolve_within b.root key);
    Trouble = λ op s key e. Meets op s e (resolve_within b.root key);
  }
