-- ===== src/Bus/Client/Groups.antt =====
-- When a consumer group is taken to exist, and what a consumer reads from its streams.
use oa_libs.Base.{
  ℕ, ◌≡◌, ◌↔◌, ◌⊎◌, ◌≢◌, inl, inr, refl, sym, ap, ◌∙◌, true, false, Bool-cases, some, Option-cases,
  List, [], ◌∷◌, ◌++◌, map, All, Result, ok, err, is_empty, arith,
}
use oa_libs.Deps.{Json}
use oa_libs.Std.Text.{Text, codes, strip_prefix, contains}
use oa_libs.Std.Text.Laws.{strip_prefix_iff, strip_prefix-append}
use oa_libs.Common.Error.{AppError, internal}
use oa_libs.Bus.Message.{Wire}
use mathlib.Core.Bool.{false≢true}
use oa_libs.Bus.Message.RoundTrip.{
  WireLaws, Event, IsStream, stream_reply, all_delivered, parse-stream_reply,
}
use oa_libs.Bus.Client.{Redis, group_answer, xgroup_create, xreadgroup, ensure_group, read_group}

-- The part stands somewhere in the text.
abbrev pub Within : Text → Text → Type 0
Within part s = (a : Text) × (b : Text) × (s ≡ a ++ part ++ b)

contains_cons :
    (part : Text) (c : ℕ) (s : Text)
    → (contains part (c ∷ s) ≡ true)
      ↔ (((t : Text) × (strip_prefix part (c ∷ s) ≡ some t)) ⊎ (contains part s ≡ true))
unfolding contains
contains_cons part c s = elim (Option-cases (strip_prefix part (c ∷ s))) [
  | inl missed ↦ (λ h. inr (ground arith), λ found. ground arith)
  | inr (t, found) ↦ (λ h. inl (t, found), λ h. ground arith)
]

contains_sound : (part s : Text) → contains part s ≡ true → Within part s
unfolding contains
contains_sound [] [] h = ([], [], refl)
contains_sound (p ∷ part) [] h = absurd (cc)
contains_sound part (c ∷ s) h = elim ((contains_cons part c s).0 h) [
  | inl (t, found) ↦ ([], t, (strip_prefix_iff part (c ∷ s) t).0 found)
  | inr behind ↦ let (a, b, form) = contains_sound part s behind in (c ∷ a, b, ap (λ r. c ∷ r) form)
]

contains_complete : (part a b : Text) → contains part (a ++ part ++ b) ≡ true
unfolding strip_prefix
contains_complete [] [] [] = unfold contains in refl
contains_complete [] [] (c ∷ b) = (contains_cons [] c b).1 (inl (c ∷ b, refl))
contains_complete (p ∷ part) [] b =
    (contains_cons (p ∷ part) p (part ++ b)).1 (inl (b, strip_prefix-append (p ∷ part) b))
contains_complete part (c ∷ a) b =
    (contains_cons part c (a ++ part ++ b)).1 (inr (contains_complete part a b))

-- A text contains a part exactly if it is the part with something before it and behind it.
pub contains_iff : (part s : Text) → (contains part s ≡ true) ↔ Within part s
contains_iff part s = (
  contains_sound part s,
  λ within. let (a, b, form) = within in rw form (contains_complete part a b),
)

module _ {State : Type 0} {J : Json} {W : Wire J.Value} (R : Redis J W State) where
  -- What `ensure_group` makes of the answer to XGROUP CREATE: it succeeds, and the group was created
  -- or Redis said BUSYGROUP; or it fails with an error of another text.
  abbrev pub Ensured : Result (Unit {0}) Text → Result (Unit {0}) AppError → Type 0
  Ensured answer r =
      ((r ≡ ok tt) × (answer ≡ ok tt))
      ⊎ ((text : Text) × (answer ≡ err text) × Within (codes "BUSYGROUP") text × (r ≡ ok tt))
      ⊎ ((text : Text) × (answer ≡ err text)
          × (¬ Within (codes "BUSYGROUP") text)
          × (r ≡ err (internal text)))

  group_answer-Ensured :
      (m : Result (Unit {0}) Text × State)
      → Ensured m.0 (group_answer m).0 × ((group_answer m).1 ≡ m.1)
  unfolding group_answer
  group_answer-Ensured (ok a, s) = (inl (refl, refl), refl)
  group_answer-Ensured (err text, s) = elim (Bool-cases (contains (codes "BUSYGROUP") text)) [
    | inl busy ↦
        rw busy (inr (inl (text, refl, (contains_iff (codes "BUSYGROUP") text).0 busy, refl)), refl)
    | inr other ↦
        let never : ¬ Within (codes "BUSYGROUP") text =
          λ w. false≢true (sym other ∙ (contains_iff (codes "BUSYGROUP") text).1 w) in
        rw other (inr (inr (text, refl, never, refl)), refl)
  ]

  -- `ensure_group` sends one command. It succeeds if Redis created the group, and also if Redis answered
  -- with an error whose text has BUSYGROUP anywhere in it, so that a second call succeeds as the first;
  -- any other error comes back as an internal error with its text.
  pub ensure_group_exact :
      (stream group : Text) (s : State)
      → Ensured (R.query_unit (xgroup_create stream group) s).0 (ensure_group R stream group s).0
        × ((ensure_group R stream group s).1 ≡ (R.query_unit (xgroup_create stream group) s).1)
  unfolding ensure_group
  ensure_group_exact stream group s =
      group_answer-Ensured (R.query_unit (xgroup_create stream group) s)

  names-ne-nil :
      (L : WireLaws J W) (streams : List (Text × List (Event J.Value)))
      → streams ≢ []
      → is_empty (map (λ s. s.0) streams) ≡ false
  names-ne-nil L [] h = absurd (h refl)
  names-ne-nil L (s ∷ streams) h = refl

  -- A consumer that reads from one or more streams gets, if Redis answers its one command with their
  -- entries, each of these as a message, with its id, stream, type and payload, in the order of the
  -- streams and of their entries.
  pub read_group-all_delivered :
      (L : WireLaws J W) (streams : List (Text × List (Event J.Value))) (group consumer : Text)
      (count block_ms : ℕ) (s t : State)
      → streams ≢ []
      → All (IsStream J W L) streams
      → R.query_value (xreadgroup (map (λ s. s.0) streams) group consumer count block_ms) s
        ≡ (ok (L.array_of (map (stream_reply J W L) streams)), t)
      → read_group R (map (λ s. s.0) streams) group consumer count block_ms s
        ≡ (ok (all_delivered J W L streams), t)
  unfolding read_group
  read_group-all_delivered L streams group consumer count block_ms s t given valid answered =
      rw (names-ne-nil L streams given, answered)
        (ap (λ messages. (ok messages, t)) (parse-stream_reply J W L streams valid))
