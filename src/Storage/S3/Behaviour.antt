-- ===== src/Storage/S3/Behaviour.antt =====
-- What the S3 backend relies on in the object store.
use oa_libs.Base.{ℕ, Option, none, some, ◌≡◌, ◌≢◌, ok, err}
use oa_libs.Storage.S3.{Method, no_such_object, ObjectStore}
use oa_libs.Std.Text.{Text}
use oa_libs.Std.Utf8.{Bytes}

-- The documented behaviour of the calls, over what the store holds at a path.
pub record StoreLaws {State : Type 0} (O : ObjectStore State) : Type 0 where
  pub held : State → O.ObjectPath → Option Bytes
  pub body_of : O.GetResult → Bytes
  pub put-ok :
      (p : O.ObjectPath) (body : Bytes) (s : State)
      → (O.put p body s).0 ≡ ok tt
      → held (O.put p body s).1 p ≡ some body
  pub put-apart :
      (p q : O.ObjectPath) (body : Bytes) (s : State) → p ≢ q → held (O.put p body s).1 q ≡ held s q
  pub get-ok :
      (p : O.ObjectPath) (result : O.GetResult) (s : State)
      → (O.get p s).0 ≡ ok result
      → held s p ≡ some (body_of result)
  pub get-missing :
      (p : O.ObjectPath) (shown : Text) (s : State)
      → (O.get p s).0 ≡ err (no_such_object shown)
      → held s p ≡ none
  pub get-keeps : (p q : O.ObjectPath) (s : State) → held (O.get p s).1 q ≡ held s q
  -- The body streams in after the answer: it may break off, but is not missing.
  pub bytes-ok :
      (result : O.GetResult) (body : Bytes) (s : State)
      → (O.bytes result s).0 ≡ ok body
      → body ≡ body_of result
  pub bytes-found :
      (result : O.GetResult) (shown : Text) (s : State)
      → (O.bytes result s).0 ≢ err (no_such_object shown)
  pub bytes-keeps :
      (result : O.GetResult) (q : O.ObjectPath) (s : State) → held (O.bytes result s).1 q ≡ held s q
  pub delete-ok :
      (p : O.ObjectPath) (s : State) → (O.delete p s).0 ≡ ok tt → held (O.delete p s).1 p ≡ none
  pub delete-missing :
      (p : O.ObjectPath) (shown : Text) (s : State)
      → (O.delete p s).0 ≡ err (no_such_object shown)
      → held (O.delete p s).1 p ≡ none
  pub delete-apart : (p q : O.ObjectPath) (s : State) → p ≢ q → held (O.delete p s).1 q ≡ held s q
  pub head-found :
      (p : O.ObjectPath) (s : State)
      → (O.head p s).0 ≡ ok tt
      → (body : Bytes) × (held s p ≡ some body)
  pub head-missing :
      (p : O.ObjectPath) (shown : Text) (s : State)
      → (O.head p s).0 ≡ err (no_such_object shown)
      → held s p ≡ none
  pub head-keeps : (p q : O.ObjectPath) (s : State) → held (O.head p s).1 q ≡ held s q
  -- Signing is computed by the client.
  pub signed_url-keeps :
      (method : Method) (p q : O.ObjectPath) (n : ℕ) (s : State)
      → held (O.signed_url method p n s).1 q ≡ held s q
