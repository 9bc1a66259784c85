-- ===== src/Auth/Jwt/Samples/Laws.antt =====
-- The jsonwebtoken of Tokens keeps the laws of the real one.
use oa_libs.Base.{
  ◌∙◌, ◌≡◌, refl, ap, subst, true, false, any, Any, inl, inr, Option, none, some, List, [], ◌∷◌,
  ◌++◌, Result, ok, err, and_then, ok_or, arith,
}
use oa_libs.Deps.Samples.{Tree, flag, item_of, tree_serde}
use oa_libs.Deps.Serde.{then_read}
use oa_libs.Std.Int.{ℤ}
use oa_libs.Std.Text.{Text, text_eq}
use oa_libs.Std.Text.Laws.{text_eq_iff}
use oa_libs.Auth.Jwt.{Algorithm, rs256, other_algorithm, Header, Validation, other_kind}
use oa_libs.Auth.Jwt.Checks.{TokenLaws}
use oa_libs.Auth.Jwt.Samples.{show, read_part, read_part-show}
use oa_libs.Auth.Jwt.Samples.Tokens.{
  is_rs256, kid_tree, header_tree, read_header, part, signature, token_of, header_of, opened, late,
  is_late, is_issued, same_algorithm, checked, issuer_of, exp_of, decoded, tokens,
}

part-show : (t : Tree) (rest : Text) → part (show t ++ b'.' ∷ rest) ≡ some (t, rest)
unfolding part then_read read_part
part-show t rest = rw (read_part-show t (b'.' ∷ rest) []) refl

read_header-header_tree : (h : Header) → read_header (header_tree h) ≡ some h
read_header-header_tree h = again h.alg h.kid
  where
    again :
        (alg : Algorithm) (kid : Option Text)
        → read_header (item_of (flag (is_rs256 alg)) (kid_tree kid))
          ≡ some (record { alg = alg; kid = kid })
    again rs256 none = refl
    again rs256 (some kid) = refl
    again other_algorithm none = refl
    again other_algorithm (some kid) = refl

opened-token :
    (h : Header) (payload : Tree) (key : Text)
    → opened (token_of (header_tree h) payload key) key ≡ some (h, payload)
unfolding opened then_read
opened-token h payload key =
    let sig = signature (header_tree h) payload key in
    rw
      (
        part-show (header_tree h) (show payload ++ b'.' ∷ sig),
        part-show payload sig,
        read_header-header_tree h,
        (text_eq_iff sig sig).1 refl,
      )
      refl

pub header_of-token :
    (h : Header) (payload : Tree) (key : Text)
    → header_of (token_of (header_tree h) payload key) ≡ some h
unfolding header_of then_read
header_of-token h payload key =
    rw (part-show (header_tree h) (show payload ++ b'.' ∷ signature (header_tree h) payload key))
      (read_header-header_tree h)

and_then-ok :
    {A B E : Type 0} (r : Result A E) (f : A → Result B E) (b : B)
    → and_then r f ≡ ok b
    → (a : A) × (r ≡ ok a) × (f a ≡ ok b)
and_then-ok (ok a) f b h = (a, refl, h)
and_then-ok (err e) f b h = absurd (cc)

ok_or-ok : {A E : Type 0} (e : E) (o : Option A) (a : A) → ok_or e o ≡ ok a → o ≡ some a
ok_or-ok e none a h = absurd (cc)
ok_or-ok e (some b) a h = ground arith

pub decoded-parts :
    {A : Type 0} (read : Tree → Option A) (token key : Text) (v : Validation) (a : A)
    → decoded read token key v ≡ ok a
    → (m : Header × Tree) × (opened token key ≡ some m)
      × (read m.1 ≡ some a)
      × (checked v m.0.alg (issuer_of m.1) (exp_of m.1) ≡ ok tt)
unfolding decoded
decoded-parts read token key v a h =
    let (m, shown, h1) = and_then-ok (ok_or other_kind (opened token key)) _ a h in
    let (b, got, h2) = and_then-ok (ok_or other_kind (read m.1)) _ a h1 in
    let (u, passes, h3) = and_then-ok (checked v m.0.alg (issuer_of m.1) (exp_of m.1)) _ a h2 in
    let same : b ≡ a = ground arith in
    (
      m,
      ok_or-ok other_kind (opened token key) m shown,
      ok_or-ok other_kind (read m.1) b got ∙ ap some same,
      passes,
    )

pub checked-ok :
    (v : Validation) (alg : Algorithm) (issuer : Option Text) (exp : Option ℤ)
    → checked v alg issuer exp ≡ ok tt
    → (same_algorithm v.algorithm alg ≡ true)
      × (is_issued v.issuer issuer ≡ true)
      × (v.validate_exp ≡ true → is_late exp ≡ false)
unfolding checked
checked-ok v alg issuer exp h = (ground arith, ground arith, λ on. ground arith)

pub same_algorithm-eq : (a b : Algorithm) → same_algorithm a b ≡ true → a ≡ b
same_algorithm-eq rs256 rs256 h = refl
same_algorithm-eq rs256 other_algorithm h = absurd (cc)
same_algorithm-eq other_algorithm rs256 h = absurd (cc)
same_algorithm-eq other_algorithm other_algorithm h = refl

same_algorithm_refl : (a : Algorithm) → same_algorithm a a ≡ true
same_algorithm_refl rs256 = refl
same_algorithm_refl other_algorithm = refl

pub listed :
    (issuers : List Text) (issuer : Text)
    → any (λ i. text_eq i issuer) issuers ≡ true
    → Any (λ i. i ≡ issuer) issuers
listed [] issuer h = absurd (cc)
listed (i ∷ issuers) issuer h = ground (arith, text_eq_iff i issuer, listed issuers issuer)

any_listed :
    (issuers : List Text) (issuer : Text)
    → Any (λ i. i ≡ issuer) issuers
    → any (λ i. text_eq i issuer) issuers ≡ true
any_listed [] issuer h = absurd h
any_listed (i ∷ issuers) issuer (inl same) = rw ((text_eq_iff i issuer).1 same) refl
any_listed (i ∷ issuers) issuer (inr later) =
    let rest = any_listed issuers issuer later in ground arith

pub made_token :
    {token token' : Text} → Path (Result Text Text) (ok token) (ok token') → token ≡ token'
made_token h = ground arith

checked-passes :
    (v : Validation) (alg : Algorithm) (issuer : Text) (exp : ℤ)
    → v.algorithm ≡ alg
    → Any (λ i. i ≡ issuer) v.issuer
    → late exp ≡ false
    → checked v alg (some issuer) (some exp) ≡ ok tt
unfolding checked
checked-passes v alg issuer exp same named lasts =
    let alike : same_algorithm v.algorithm alg ≡ true =
      subst (λ a. same_algorithm v.algorithm a ≡ true) same (same_algorithm_refl v.algorithm) in
    let issued = any_listed v.issuer issuer named in ground arith

pub decoded-token :
    {A : Type 0} (read : Tree → Option A) (header : Header) (payload : Tree) (ek dk token : Text)
    (v : Validation) (a : A) (issuer : Text) (exp : ℤ)
    → Path (Result Text Text) (ok (token_of (header_tree header) payload ek)) (ok token)
    → ek ≡ dk
    → v.algorithm ≡ header.alg
    → issuer_of payload ≡ some issuer
    → Any (λ i. i ≡ issuer) v.issuer
    → exp_of payload ≡ some exp
    → late exp ≡ false
    → read payload ≡ some a
    → decoded read token dk v ≡ ok a
unfolding decoded
decoded-token read header payload ek dk token v a issuer exp made belongs alg named listed_issuer
      expires lasts got =
    let shown : opened token dk ≡ some (header, payload) =
      subst (λ t. opened t dk ≡ some (header, payload)) (made_token made)
        (subst (λ k. opened (token_of (header_tree header) payload ek) k ≡ some (header, payload))
          belongs (opened-token header payload ek)) in
    let passes = checked-passes v header.alg issuer exp alg listed_issuer lasts in
    rw (shown, got, named, expires, passes) refl

abbrev pub token_laws : TokenLaws tree_serde tokens
token_laws = record {
  Signed = λ token key algorithm.
      (m : Header × Tree) × (opened token key ≡ some m) × (algorithm ≡ m.0.alg);
  InTime = λ exp. late exp ≡ false;
  Belongs = λ ek dk. ek ≡ dk;
  decode-signed = λ read token key v a h.
      let (m, shown, got, passes) = decoded-parts read token key v a h in
      let (same, issued, lasts) = checked-ok v m.0.alg (issuer_of m.1) (exp_of m.1) passes in
      (m, shown, same_algorithm-eq v.algorithm m.0.alg same);
  decode-payload = λ read token key v a h.
      let (m, shown, got, passes) = decoded-parts read token key v a h in
      let (same, issued, lasts) = checked-ok v m.0.alg (issuer_of m.1) (exp_of m.1) passes in
      (
        m.1,
        got,
        λ issuer named.
            listed v.issuer issuer (subst (λ o. is_issued v.issuer o ≡ true) named issued),
        λ exp on named. subst (λ o. is_late o ≡ false) named (lasts on),
      );
  decode-encode =
      λ read header payload ek dk token v a issuer exp made belongs alg named listed_issuer expires
          lasts none_named got.
        decoded-token read header payload ek dk token v a issuer exp made belongs alg named
          listed_issuer expires lasts got;
  decode_header-encode = λ header payload ek token made.
      subst (λ t. ok_or other_kind (header_of t) ≡ ok header) (made_token made)
        (ap (ok_or other_kind) (header_of-token header payload ek));
}
