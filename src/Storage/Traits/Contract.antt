-- ===== src/Storage/Traits/Contract.antt =====
-- What a storage backend promises, whatever it stores in. Each backend proves it, and clients rely on
-- it alone.
use oa_libs.Base.{ℕ, true, false, ◌⊎◌, Option, none, some, ok, err, ◌≡◌, ◌≢◌}
use oa_libs.Std.Text.{Text}
use oa_libs.Std.Utf8.{Bytes}
use oa_libs.Storage.Traits.{StorageError, not_found, StorageBackend}

-- The operations that reach what the backend stores in.
pub data Operation : Type 0 where
  putting : Bytes → Operation
  getting deleting asking : Operation

-- What a backend says of itself: what is stored under a key; which keys name different objects; which
-- keys name something that is no object; which it cannot look at; and which errors an operation on a key
-- may meet underneath.
pub record Subject (State : Type 0) : Type 1 where
  pub object : State → Text → Option Bytes
  pub IsApart : Text → Text → Type 0
  pub IsTaken : State → Text → Type 0
  pub IsHidden : State → Text → Type 0
  pub Trouble : Operation → State → Text → StorageError → Type 0

pub record Honours {State : Type 0} (B : StorageBackend State) (S : Subject State) : Type 0 where
  -- What was written is there, and nothing else has changed.
  pub put_ok :
      (key : Text) (body : Bytes) (kind : Text) (s : State)
      → (B.put key body kind s).0 ≡ ok tt
      → S.object (B.put key body kind s).1 key ≡ some body
  pub put_apart :
      (key other : Text) (body : Bytes) (kind : Text) (s : State)
      → S.IsApart key other
      → S.object (B.put key body kind s).1 other ≡ S.object s other
  -- What is read is what is stored, and NotFound is answered only where nothing is.
  pub get_ok :
      (key : Text) (body : Bytes) (s : State)
      → (B.get key s).0 ≡ ok body
      → S.object s key ≡ some body
  pub get_missing :
      (key about : Text) (s : State)
      → (B.get key s).0 ≡ err (not_found about)
      → S.object s key ≡ none
  pub get_keeps : (key other : Text) (s : State) → S.object (B.get key s).1 other ≡ S.object s other
  -- What was deleted is gone, nothing else has changed, and a missing object is no error.
  pub delete_ok :
      (key : Text) (s : State) → (B.delete key s).0 ≡ ok tt → S.object (B.delete key s).1 key ≡ none
  pub delete_apart :
      (key other : Text) (s : State)
      → S.IsApart key other
      → S.object (B.delete key s).1 other ≡ S.object s other
  pub delete_quiet : (key about : Text) (s : State) → (B.delete key s).0 ≢ err (not_found about)
  -- What exists is stored, or else something that is no object; what does not exist is not stored, or
  -- cannot be looked at.
  pub exists_true :
      (key : Text) (s : State)
      → (B.exists key s).0 ≡ ok true
      → ((body : Bytes) × (S.object s key ≡ some body)) ⊎ S.IsTaken s key
  pub exists_false :
      (key : Text) (s : State)
      → (B.exists key s).0 ≡ ok false
      → (S.object s key ≡ none) ⊎ S.IsHidden s key
  -- An error is one that the operation has met underneath; only `get` adds one, for what is missing.
  pub put_err :
      (key : Text) (body : Bytes) (kind : Text) (e : StorageError) (s : State)
      → (B.put key body kind s).0 ≡ err e
      → S.Trouble (putting body) s key e
  pub get_err :
      (key : Text) (e : StorageError) (s : State)
      → (B.get key s).0 ≡ err e
      → ((about : Text) × (e ≡ not_found about)) ⊎ S.Trouble getting s key e
  pub delete_err :
      (key : Text) (e : StorageError) (s : State)
      → (B.delete key s).0 ≡ err e
      → S.Trouble deleting s key e
  pub exists_err :
      (key : Text) (e : StorageError) (s : State)
      → (B.exists key s).0 ≡ err e
      → S.Trouble asking s key e
  -- Questions change nothing that is stored.
  pub exists_keeps :
      (key other : Text) (s : State) → S.object (B.exists key s).1 other ≡ S.object s other
  pub presign_put_keeps :
      (key other : Text) (expires_seconds : ℕ) (s : State)
      → S.object (B.presign_put key expires_seconds s).1 other ≡ S.object s other
  pub presign_get_keeps :
      (key other : Text) (expires_seconds : ℕ) (s : State)
      → S.object (B.presign_get key expires_seconds s).1 other ≡ S.object s other
