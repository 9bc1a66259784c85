-- ===== src/Storage/S3/Subject.antt =====
-- What the S3 backend says of itself: the object that a key stands for, and what its operations may meet.
use oa_libs.Base.{◌≡◌, ◌≢◌, ◌⊎◌, err}
use oa_libs.Std.Text.{Text}
use oa_libs.Storage.Traits.{StorageError, backend}
use oa_libs.Storage.Traits.Contract.{Operation, putting, getting, deleting, asking, Subject}
use oa_libs.Storage.S3.{StoreError, other_error, map_error, ObjectStore}
use oa_libs.Storage.S3.Behaviour.{StoreLaws}

module _ {State : Type 0} (O : ObjectStore State) (L : StoreLaws O) where
  -- The call of the store that failed: that of a `put` for any reason, the others not because the
  -- object is missing.
  abbrev pub Meets : Operation → State → StorageError → O.ObjectPath → Type 0
  Meets (putting body) s e p = (f : StoreError) × (e ≡ map_error f) × ((O.put p body s).0 ≡ err f)
  Meets getting s e p =
      (shown : Text) × (e ≡ backend shown)
      × (((O.get p s).0 ≡ err (other_error shown))
          ⊎ ((result : O.GetResult) × (t : State) × ((O.bytes result t).0
                ≡ err (other_error shown))))
  Meets deleting s e p =
      (shown : Text) × (e ≡ backend shown) × ((O.delete p s).0 ≡ err (other_error shown))
  Meets asking s e p =
      (shown : Text) × (e ≡ backend shown) × ((O.head p s).0 ≡ err (other_error shown))

  -- A key stands for what the store holds at its path, and two keys are apart if object_store makes
  -- different paths of them; nothing else stands at a path, and every path can be looked at.
  abbrev pub subject : Subject State
  subject = record {
    object = λ s key. L.held s (O.path_from key);
    IsApart = λ key other. O.path_from key ≢ O.path_from other;
    IsTaken = λ s key. ⊥;
    IsHidden = λ s key. ⊥;
    Trouble = λ op s key e. Meets op s e (O.path_from key);
  }
