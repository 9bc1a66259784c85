-- ===== src/Storage/S3/Refinement.antt =====
-- The S3 backend keeps the promises of a storage backend, and its signed URLs expire.
use oa_libs.Storage.S3.{
  get_method, validity, Method, presigned, put_method, map_error, other_error, no_such_object,
  mapped, delete_answer, exists_answer, s3_backend, StoreError, ObjectStore,
}
use oa_libs.Base.{
  ℕ, true, false, none, some, ◌≡◌, ◌≢◌, ◌⊎◌, inl, inr, refl, sym, ap, ◌∙◌, continue, Result, ok,
  err, arith,
}
use oa_libs.Std.Text.{Text}
use oa_libs.Std.Utf8.{Bytes}
use oa_libs.Storage.Traits.{StorageError, not_found}
use oa_libs.Storage.Traits.Contract.{Honours}
use oa_libs.Storage.S3.Behaviour.{StoreLaws}
use oa_libs.Storage.S3.Errors.{put-Meets, get-Meets, delete-Meets, exists-Meets}
use oa_libs.Storage.S3.Subject.{subject}

module _ {S A : Type 0} where
  mapped-ok : (m : Result A StoreError × S) {a : A} → (mapped m).0 ≡ ok a → m.0 ≡ ok a
  unfolding mapped
  mapped-ok (ok a, s) h = ground arith
  mapped-ok (err e, s) h = absurd (cc)

  mapped-missing :
      (m : Result A StoreError × S) (about : Text)
      → (mapped m).0 ≡ err (not_found about)
      → m.0 ≡ err (no_such_object about)
  unfolding mapped map_error
  mapped-missing (ok a, s) about h = absurd (cc)
  mapped-missing (err (no_such_object shown), s) about h = ground arith
  mapped-missing (err (other_error shown), s) about h = absurd (cc)

  mapped-state : (m : Result A StoreError × S) → (mapped m).1 ≡ m.1
  unfolding mapped
  mapped-state (ok a, s) = refl
  mapped-state (err e, s) = refl

module _ {S : Type 0} where
  delete_answer-ok :
      (m : Result (Unit {0}) StoreError × S)
      → (delete_answer m).0 ≡ ok tt
      → (m.0 ≡ ok tt) ⊎ ((shown : Text) × (m.0 ≡ err (no_such_object shown)))
  unfolding delete_answer
  delete_answer-ok (ok a, s) h = inl refl
  delete_answer-ok (err (no_such_object shown), s) h = inr (shown, refl)
  delete_answer-ok (err (other_error shown), s) h = absurd (cc)

  delete_answer-state : (m : Result (Unit {0}) StoreError × S) → (delete_answer m).1 ≡ m.1
  unfolding delete_answer
  delete_answer-state (ok a, s) = refl
  delete_answer-state (err (no_such_object shown), s) = refl
  delete_answer-state (err (other_error shown), s) = refl

  delete_answer-quiet :
      (about : Text) (m : Result (Unit {0}) StoreError × S)
      → (delete_answer m).0 ≢ err (not_found about)
  unfolding delete_answer map_error
  delete_answer-quiet about (ok a, s) h = cc
  delete_answer-quiet about (err (no_such_object shown), s) h = cc
  delete_answer-quiet about (err (other_error shown), s) h = cc

  exists_answer-state : (m : Result (Unit {0}) StoreError × S) → (exists_answer m).1 ≡ m.1
  unfolding exists_answer
  exists_answer-state (ok a, s) = refl
  exists_answer-state (err (no_such_object shown), s) = refl
  exists_answer-state (err (other_error shown), s) = refl

  presigned-state : (m : Result Text StoreError × S) → (presigned m).1 ≡ m.1
  unfolding presigned
  presigned-state (ok url, s) = refl
  presigned-state (err e, s) = refl

  exists_answer-true :
      (m : Result (Unit {0}) StoreError × S) → (exists_answer m).0 ≡ ok true → m.0 ≡ ok tt
  unfolding exists_answer
  exists_answer-true (ok a, s) h = refl
  exists_answer-true (err (no_such_object shown), s) h = absurd (cc)
  exists_answer-true (err (other_error shown), s) h = absurd (cc)

  exists_answer-false :
      (m : Result (Unit {0}) StoreError × S)
      → (exists_answer m).0 ≡ ok false
      → (shown : Text) × (m.0 ≡ err (no_such_object shown))
  unfolding exists_answer
  exists_answer-false (ok a, s) h = absurd (cc)
  exists_answer-false (err (no_such_object shown), s) h = (shown, refl)
  exists_answer-false (err (other_error shown), s) h = absurd (cc)

module _ {State : Type 0} (O : ObjectStore State) (L : StoreLaws O) where
  open L use {held, body_of}

  -- What `get` does with the answer of the store.
  abbrev read_body : Result O.GetResult StoreError × State → Result Bytes StorageError × State
  read_body m = continue (mapped m) (λ result s. mapped (O.bytes result s))

  read_body-ok :
      (m : Result O.GetResult StoreError × State) {body : Bytes}
      → (read_body m).0 ≡ ok body
      → (result : O.GetResult) × (m.0 ≡ ok result) × (body ≡ body_of result)
  unfolding mapped
  read_body-ok (ok result, s) {body} h =
      (result, refl, L.bytes-ok result body s (mapped-ok (O.bytes result s) h))
  read_body-ok (err e, s) h = absurd (cc)

  read_body-missing :
      (m : Result O.GetResult StoreError × State) (about : Text)
      → (read_body m).0 ≡ err (not_found about)
      → m.0 ≡ err (no_such_object about)
  unfolding mapped map_error
  read_body-missing (ok result, s) about h =
      absurd (L.bytes-found result about s (mapped-missing (O.bytes result s) about h))
  read_body-missing (err (no_such_object shown), s) about h = ground arith
  read_body-missing (err (other_error shown), s) about h = absurd (cc)

  read_body-keeps :
      (m : Result O.GetResult StoreError × State) (q : O.ObjectPath)
      → held (read_body m).1 q ≡ held m.1 q
  unfolding mapped
  read_body-keeps (ok result, s) q =
      ap (λ t. held t q) (mapped-state (O.bytes result s)) ∙ L.bytes-keeps result q s
  read_body-keeps (err e, s) q = refl

  get_finds :
      (p : O.ObjectPath) (body : Bytes) (s : State)
      → (read_body (O.get p s)).0 ≡ ok body
      → held s p ≡ some body
  get_finds p body s h =
      let (result, found, same) = read_body-ok (O.get p s) h in
      L.get-ok p result s found ∙ ap some (sym same)

  delete_empties :
      (p : O.ObjectPath) (s : State)
      → (delete_answer (O.delete p s)).0 ≡ ok tt
      → held (delete_answer (O.delete p s)).1 p ≡ none
  delete_empties p s h =
      ap (λ t. held t p) (delete_answer-state (O.delete p s))
      ∙ elim (delete_answer-ok (O.delete p s) h) [
        | inl done ↦ L.delete-ok p s done
        | inr (shown, missing) ↦ L.delete-missing p shown s missing
      ]

  exists_misses :
      (p : O.ObjectPath) (s : State) → (exists_answer (O.head p s)).0 ≡ ok false → held s p ≡ none
  exists_misses p s h =
      let (shown, missing) = exists_answer-false (O.head p s) h in L.head-missing p shown s missing

  signing_keeps :
      (method : Method) (p q : O.ObjectPath) (n : ℕ) (s : State)
      → held (presigned (O.signed_url method p n s)).1 q ≡ held s q
  signing_keeps method p q n s =
      ap (λ t. held t q) (presigned-state (O.signed_url method p n s))
      ∙ L.signed_url-keeps method p q n s

  -- On any object store that behaves as documented, where a key stands for the object at the path that
  -- object_store makes of it: what `put` has written is what is stored, and other objects are left
  -- alone, also where it fails; `get` answers what is stored, and NotFound only for what is not; behind
  -- a `delete` that succeeds nothing is stored, and a missing object is no error; `exists` answers true
  -- exactly for what is stored, if it answers; and every other error is that of a call of the store.
  pub s3_backend-Honours : Honours (s3_backend O) (subject O L)
  unfolding s3_backend
  s3_backend-Honours = record {
    put_ok = λ key body kind s h.
        ap (λ t. held t (O.path_from key)) (mapped-state (O.put (O.path_from key) body s))
        ∙ L.put-ok (O.path_from key) body s (mapped-ok (O.put (O.path_from key) body s) h);
    put_apart = λ key other body kind s n.
        ap (λ t. held t (O.path_from other)) (mapped-state (O.put (O.path_from key) body s))
        ∙ L.put-apart (O.path_from key) (O.path_from other) body s n;
    get_ok = λ key. get_finds (O.path_from key);
    get_missing = λ key about s h.
        L.get-missing (O.path_from key) about s
          (read_body-missing (O.get (O.path_from key) s) about h);
    get_keeps = λ key other s.
        read_body-keeps (O.get (O.path_from key) s) (O.path_from other)
        ∙ L.get-keeps (O.path_from key) (O.path_from other) s;
    delete_ok = λ key. delete_empties (O.path_from key);
    delete_apart = λ key other s n.
        ap (λ t. held t (O.path_from other)) (delete_answer-state (O.delete (O.path_from key) s))
        ∙ L.delete-apart (O.path_from key) (O.path_from other) s n;
    delete_quiet = λ key about s. delete_answer-quiet about (O.delete (O.path_from key) s);
    exists_true = λ key s h.
        inl (L.head-found (O.path_from key) s (exists_answer-true (O.head (O.path_from key) s) h));
    exists_false = λ key s h. inl (exists_misses (O.path_from key) s h);
    put_err = λ key body kind e s. put-Meets O L key body e s;
    get_err = λ key e s. get-Meets O L key e s;
    delete_err = λ key e s. delete-Meets O L key e s;
    exists_err = λ key e s. exists-Meets O L key e s;
    exists_keeps = λ key other s.
        ap (λ t. held t (O.path_from other)) (exists_answer-state (O.head (O.path_from key) s))
        ∙ L.head-keeps (O.path_from key) (O.path_from other) s;
    presign_put_keeps = λ key other n s.
        signing_keeps put_method (O.path_from key) (O.path_from other) (validity n) s;
    presign_get_keeps = λ key other n s.
        signing_keeps get_method (O.path_from key) (O.path_from other) (validity n) s;
  }
