-- ===== src/Bus/Message/Naming.antt =====
-- Which stream an event goes to.
use oa_libs.Base.{◌∙◌, ◌≡◌, ◌≢◌, ◌⊎◌, inl, inr, refl, ap, List, [], ◌∷◌, ◌++◌}
use oa_libs.Std.Text.{Text, codes, Lacks, split}
use oa_libs.Std.Text.Split.{split_of_Lacks, split-append_sep}
use oa_libs.Bus.Message.{stream_name, module_of}

-- The type is the module, or the module and a dot with more behind it.
abbrev pub IsOf : Text → Text → Type 0
IsOf event_type name = (event_type ≡ name) ⊎ ((rest : Text) × (event_type ≡ name ++ b'.' ∷ rest))

split_of_IsOf :
    (event_type name : Text)
    → Lacks b'.' name
    → IsOf event_type name
    → (more : List Text) × (split b'.' event_type ≡ name ∷ more)
split_of_IsOf event_type name single (inl whole) =
    ([], ap (split b'.') whole ∙ split_of_Lacks b'.' name single)
split_of_IsOf event_type name single (inr (rest, form)) =
    (split b'.' rest, ap (split b'.') form ∙ split-append_sep b'.' name rest single)

-- The events of a module, whose name is not empty and has no dot, all go to the one stream that is
-- named after it, and the events without a module to that of the module `system`.
pub stream_name-IsOf :
    (event_type name : Text)
    → Lacks b'.' name
    → IsOf event_type name
    → ((name ≢ []) → stream_name event_type ≡ codes "events." ++ name)
      × (name ≡ [] → stream_name event_type ≡ codes "events.system")
unfolding stream_name module_of
stream_name-IsOf event_type [] single form =
    let (more, parts) = split_of_IsOf event_type [] single form in
    (λ n. absurd (n refl), λ e. rw parts refl)
stream_name-IsOf event_type (c ∷ name) single form =
    let (more, parts) = split_of_IsOf event_type (c ∷ name) single form in
    (λ n. rw parts refl, λ e. absurd (cc))
