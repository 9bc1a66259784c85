-- ===== src/Storage/Local/Examples.antt =====
-- The local backend on a file system in memory.
use oa_libs.Base.{
  true, ◌≢◌, false, ◌⊎◌, inl, ◌∙◌, ◌≡◌, refl, ap, Option, none, some, [], ◌++◌, Result, ok, err,
  arith,
}
use oa_libs.Storage.Key.Examples.{plain-IsKey}
use oa_libs.Deps.Samples.{toy_crypto, seconds}
use oa_libs.Std.Int.{pos}
use oa_libs.Std.Decimal.{show_ℤ}
use oa_libs.Std.Text.{split_once, Text, codes}
use oa_libs.Storage.Traits.{invalid_signature}
use oa_libs.Storage.Local.{
  sign_download, verify_download, download_tag, download_message, download_url, IoError,
  no_such_file, FileSystem, LocalBackend, local_backend,
}
use oa_libs.Storage.Local.Downloads.{
  verify_download-sign_download, verify_download_is_signed, verify_download-download_url,
}
use oa_libs.Std.Utf8.{Bytes}
use oa_libs.Storage.Samples.{
  Slots, set, set_here, set_apart, or_missing, or_missing-ok, or_missing-err, bytes_or_none,
  present,
}
use oa_libs.Storage.Traits.Contract.{Honours}
use oa_libs.Storage.Local.Files.{FileLaws}
use oa_libs.Storage.Local.Refinement.{local_backend-Honours}
use oa_libs.Storage.Local.Subject.{subject}

abbrev pub gone : IoError
gone = no_such_file (codes "ENOENT")

abbrev pub removed : Option Bytes → Result (Unit {0}) IoError
removed none = err gone
removed (some b) = ok tt

-- The files, and the buffers of what was written to them since they were opened. A buffer that is
-- not flushed does not reach its file.
pub record Disk : Type 0 where
  pub files : Slots
  pub buffers : Slots

abbrev pub memory : FileSystem Disk
memory = record {
  File = Text;
  create_dir_all = λ dir s. (ok tt, s);
  create = λ path s. (
    ok path,
    record { files = set path (some []) s.files; buffers = set path (some []) s.buffers },
  );
  write_all = λ file bytes s. (
    ok tt,
    record {
      files = s.files;
      buffers = set file (some (bytes_or_none (s.buffers file) ++ bytes)) s.buffers;
    },
  );
  flush = λ file s. (
    ok tt,
    record {
      files = set file (some (bytes_or_none (s.buffers file))) s.files;
      buffers = s.buffers;
    },
  );
  read = λ path s. (or_missing gone (s.files path), s);
  remove_file = λ path s.
      (removed (s.files path), record { files = set path none s.files; buffers = s.buffers });
  exists = λ path s. present (s.files path);
}

is_present : (o : Option Bytes) → present o ≡ true → (body : Bytes) × (o ≡ some body)
is_present none h = absurd (cc)
is_present (some body) h = (body, refl)

is_absent : (o : Option Bytes) → present o ≡ false → o ≡ none
is_absent none h = refl
is_absent (some body) h = absurd (cc)

same_file : (p f : Text) → Path (Result Text IoError) (ok p) (ok f) → f ≡ p
same_file p f h = ground arith

laws : FileLaws memory
laws = record {
  Place = Text;
  place = λ p. p;
  content = λ s p. s.files p;
  target = λ f. f;
  written = λ s f. bytes_or_none (s.buffers f);
  IsTaken = λ s p. ⊥;
  IsHidden = λ s p. ⊥;
  create_dir_all-keeps = λ dir s q. refl;
  create-target = λ path f s h. same_file path f h;
  create-unwritten = λ path f s h.
      let opened : Disk = (memory.create path s).1 in
      ap (λ g. bytes_or_none (opened.buffers g)) (same_file path f h)
      ∙ ap bytes_or_none (set_here path (some []) s.buffers);
  create-apart = λ path s q n. set_apart path q (some []) s.files n;
  write_all-takes = λ f bytes s h.
      ap bytes_or_none (set_here f (some (bytes_or_none (s.buffers f) ++ bytes)) s.buffers);
  write_all-apart = λ f bytes s q n. refl;
  flush-fills = λ f s h. set_here f (some (bytes_or_none (s.buffers f))) s.files;
  flush-apart = λ f s q n. set_apart f q (some (bytes_or_none (s.buffers f))) s.files n;
  read-ok = λ path bytes s h. or_missing-ok gone (s.files path) h;
  read-missing = λ path shown s h. or_missing-err gone (s.files path) h;
  read-keeps = λ path s q. refl;
  remove_file-ok = λ path s h. set_here path none s.files;
  remove_file-missing = λ path shown s h. set_here path none s.files;
  remove_file-apart = λ path s q n. set_apart path q none s.files n;
  exists-true = λ path s h. inl (is_present (s.files path) h);
  exists-false = λ path s h. inl (is_absent (s.files path) h);
}

abbrev backend : LocalBackend
backend = record { root = codes "/data"; sign_secret = codes "k" }

local_backend-Honours_example : Honours (local_backend memory backend) (subject memory laws backend)
local_backend-Honours_example = local_backend-Honours memory laws backend

abbrev signature : Text
signature = sign_download toy_crypto seconds backend (codes "a/b") (pos 200)

verify_download_is_signed_example :
    ((codes "a/b" ≡ codes "a/b") × (pos 200 ≡ pos 200))
    ⊎ ((download_message toy_crypto seconds backend (codes "a/b") (pos 200)
          ≢ download_message toy_crypto seconds backend (codes "a/b") (pos 200))
        × (download_tag toy_crypto seconds backend (codes "a/b") (pos 200)
            ≡ download_tag toy_crypto seconds backend (codes "a/b") (pos 200)))
verify_download_is_signed_example =
    verify_download_is_signed toy_crypto seconds backend (codes "a/b") (codes "a/b") (pos 200)
      (pos 200) (pos 100)
      (verify_download-sign_download toy_crypto seconds backend (codes "a/b") (pos 200) (pos 100)
        refl)

verify_download-download_url_example :
    (query given : Text) × (split_once b'?'
        (download_url toy_crypto seconds backend (codes "a/b") (pos 200))
      ≡ some (codes "a/b", query))
    × (split_once b'&' query
        ≡ some (codes "expires=" ++ show_ℤ (pos 200), codes "signature=" ++ given))
    × (((seconds.before (pos 200) (pos 100) ≡ false)
          × (verify_download toy_crypto seconds backend (codes "a/b") (pos 200) given (pos 100)
              ≡ ok tt))
        ⊎ ((seconds.before (pos 200) (pos 100) ≡ true)
            × (verify_download toy_crypto seconds backend (codes "a/b") (pos 200) given (pos 100)
                ≡ err invalid_signature)))
verify_download-download_url_example =
    verify_download-download_url toy_crypto seconds backend (codes "a/b") (pos 200) (pos 100)
      plain-IsKey
