-- ===== src/Storage/S3/Errors.antt =====
-- The errors of the S3 backend: each is that of a call of the object store.
use oa_libs.Base.{
  ◌≡◌, ◌⊎◌, inl, inr, refl, subst, ◌∙◌, Result, ok, err, continue, continue-eq-err, arith,
}
use oa_libs.Std.Text.{Text}
use oa_libs.Std.Utf8.{Bytes}
use oa_libs.Storage.Traits.{StorageError, not_found, backend}
use oa_libs.Storage.Traits.Contract.{putting, getting, deleting, asking}
use oa_libs.Storage.S3.{
  StoreError, no_such_object, other_error, map_error, mapped, delete_answer, exists_answer,
  ObjectStore,
}
use oa_libs.Storage.S3.Behaviour.{StoreLaws}
use oa_libs.Storage.S3.Subject.{Meets}

mapped-err :
    {S A : Type 0} (m : Result A StoreError × S) {e : StorageError}
    → (mapped m).0 ≡ err e
    → (f : StoreError) × (e ≡ map_error f) × (m.0 ≡ err f)
unfolding mapped
mapped-err (ok a, s) h = absurd (cc)
mapped-err (err f, s) h = (f, ground arith, refl)

map_error-cases :
    (f : StoreError)
    → ((about : Text) × (map_error f ≡ not_found about))
      ⊎ ((shown : Text) × (f ≡ other_error shown) × (map_error f ≡ backend shown))
unfolding map_error
map_error-cases (no_such_object shown) = inl (shown, refl)
map_error-cases (other_error shown) = inr (shown, refl, refl)

module _ {S : Type 0} where
  delete_answer-err :
      (m : Result (Unit {0}) StoreError × S) (e : StorageError)
      → (delete_answer m).0 ≡ err e
      → (shown : Text) × (e ≡ backend shown) × (m.0 ≡ err (other_error shown))
  unfolding delete_answer map_error
  delete_answer-err (ok a, s) e h = absurd (cc)
  delete_answer-err (err (no_such_object shown), s) e h = absurd (cc)
  delete_answer-err (err (other_error shown), s) e h = (shown, ground arith, refl)

  exists_answer-err :
      (m : Result (Unit {0}) StoreError × S) (e : StorageError)
      → (exists_answer m).0 ≡ err e
      → (shown : Text) × (e ≡ backend shown) × (m.0 ≡ err (other_error shown))
  unfolding exists_answer map_error
  exists_answer-err (ok a, s) e h = absurd (cc)
  exists_answer-err (err (no_such_object shown), s) e h = absurd (cc)
  exists_answer-err (err (other_error shown), s) e h = (shown, ground arith, refl)

module _ {State : Type 0} (O : ObjectStore State) (L : StoreLaws O) where
  pub put-Meets :
      (key : Text) (body : Bytes) (e : StorageError) (s : State)
      → (mapped (O.put (O.path_from key) body s)).0 ≡ err e
      → Meets O L (putting body) s e (O.path_from key)
  put-Meets key body e s h = mapped-err (O.put (O.path_from key) body s) h

  pub delete-Meets :
      (key : Text) (e : StorageError) (s : State)
      → (delete_answer (O.delete (O.path_from key) s)).0 ≡ err e
      → Meets O L deleting s e (O.path_from key)
  delete-Meets key e s h = delete_answer-err (O.delete (O.path_from key) s) e h

  pub exists-Meets :
      (key : Text) (e : StorageError) (s : State)
      → (exists_answer (O.head (O.path_from key) s)).0 ≡ err e
      → Meets O L asking s e (O.path_from key)
  exists-Meets key e s h = exists_answer-err (O.head (O.path_from key) s) e h

  -- An error of one of the two calls of `get`: the object is missing, or the call failed otherwise.
  told :
      (f : StoreError) (e : StorageError) (Call : StoreError → Type 0)
      → e ≡ map_error f
      → Call f
      → ((about : Text) × (e ≡ not_found about))
        ⊎ ((shown : Text) × (e ≡ backend shown) × Call (other_error shown))
  told f e Call same failed = elim (map_error-cases f) [
    | inl (about, missing) ↦ inl (about, same ∙ missing)
    | inr (shown, other, text) ↦ inr (shown, same ∙ text, subst Call other failed)
  ]

  pub get-Meets :
      (key : Text) (e : StorageError) (s : State)
      → (continue (mapped (O.get (O.path_from key) s)) (λ result t. mapped (O.bytes result t))).0
        ≡ err e
      → ((about : Text) × (e ≡ not_found about)) ⊎ Meets O L getting s e (O.path_from key)
  get-Meets key e s h =
      let answer = mapped (O.get (O.path_from key) s) in
      elim (continue-eq-err answer (λ result t. mapped (O.bytes result t)) h) [
        | inl early ↦
            let (f, same, failed) = mapped-err (O.get (O.path_from key) s) early in
            elim (told f e (λ g. (O.get (O.path_from key) s).0 ≡ err g) same failed) [
              | inl missing ↦ inl missing
              | inr (shown, text, call) ↦ inr (shown, text, inl call)
            ]
        | inr (result, got, late) ↦
            let (f, same, failed) = mapped-err (O.bytes result answer.1) late in
            elim (told f e (λ g. (O.bytes result answer.1).0 ≡ err g) same failed) [
              | inl missing ↦ inl missing
              | inr (shown, text, call) ↦ inr (shown, text, inr (result, answer.1, call))
            ]
      ]
