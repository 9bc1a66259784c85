-- ===== src/Auth/Jwt/Samples/Tokens.antt =====
-- A jsonwebtoken that can be run, over the token format of this module's parent, with its laws.
use oa_libs.Base.{
  Bool, true, false, not, ◌&&◌, any, Option, none, some, List, [], ◌∷◌, ◌++◌, map, if◌then◌else◌,
  Result, ok, err, and_then, ok_or,
}
use oa_libs.Deps.Samples.{Tree, flag, str, null, item_of, tree_str, tree_int, tree_serde}
use oa_libs.Deps.Serde.{then_read, required}
use oa_libs.Std.Int.{pos, ◌+ℤ◌, ℤ, ltb_ℤ}
use oa_libs.Std.Text.{Text, codes, text_eq, strip_prefix}
use oa_libs.Std.Utf8.{Bytes}
use oa_libs.Auth.Jwt.{
  Algorithm, rs256, other_algorithm, Header, Validation, ErrorKind, expired_signature, other_kind,
  JsonWebToken,
}
use oa_libs.Auth.Jwt.Samples.{show, read_part, code}

abbrev pub is_rs256 : Algorithm → Bool
is_rs256 rs256 = true
is_rs256 other_algorithm = false

abbrev pub algorithm_of : Bool → Algorithm
algorithm_of true = rs256
algorithm_of false = other_algorithm

abbrev pub kid_tree : Option Text → Tree
kid_tree none = null
kid_tree (some kid) = str kid

abbrev pub header_tree : Header → Tree
header_tree h = item_of (flag (is_rs256 h.alg)) (kid_tree h.kid)

abbrev pub read_header : Tree → Option Header
read_header (item_of (flag b) null) = some (record { alg = algorithm_of b; kid = none })
read_header (item_of (flag b) (str kid)) = some (record { alg = algorithm_of b; kid = some kid })
read_header _ = none

abbrev pub only : List Tree → Option Tree
only (t ∷ []) = some t
only _ = none

-- A part of a token: one tree, and what follows.
unfoldable pub part : Text → Option (Tree × Text)
unfolding then_read
part text = then_read (read_part text []) (λ m. then_read (only m.0) (λ t. some (t, m.1)))

unfoldable pub signature : Tree → Tree → Text → Text
signature header payload key = map (code 15) (key ++ (show header ++ show payload))

abbrev pub token_of : Tree → Tree → Text → Text
token_of header payload key =
    show header ++ b'.' ∷ (show payload ++ b'.' ∷ signature header payload key)

unfoldable pub header_of : Text → Option Header
unfolding then_read part
header_of token = then_read (part token) (λ m. read_header m.0)

-- The header and the payload of a token with the right signature.
unfoldable pub opened : Text → Text → Option (Header × Tree)
unfolding then_read part
opened token key = then_read (part token) λ h. then_read (part h.1) λ p.
    then_read (read_header h.0)
      λ header. if text_eq p.1 (signature h.0 p.0 key) then some (header, p.0) else none

-- The time of expiry is more than 60 seconds ago.
abbrev pub late : ℤ → Bool
late exp = ltb_ℤ (exp +ℤ pos 60) (pos 1500)

abbrev pub is_late : Option ℤ → Bool
is_late none = true
is_late (some exp) = late exp

abbrev pub is_issued : List Text → Option Text → Bool
is_issued issuers none = false
is_issued issuers (some issuer) = any (λ i. text_eq i issuer) issuers

abbrev pub same_algorithm : Algorithm → Algorithm → Bool
same_algorithm rs256 rs256 = true
same_algorithm other_algorithm other_algorithm = true
same_algorithm _ _ = false

unfoldable pub checked :
    Validation → Algorithm → Option Text → Option ℤ → Result (Unit {0}) ErrorKind
checked v alg issuer exp =
    if not (same_algorithm v.algorithm alg)
    then err other_kind
    else if not (is_issued v.issuer issuer)
    then err other_kind
    else if v.validate_exp && is_late exp
    then err expired_signature
    else ok tt

abbrev pub issuer_of : Tree → Option Text
issuer_of payload = required tree_serde tree_str (codes "iss") payload

abbrev pub exp_of : Tree → Option ℤ
exp_of payload = required tree_serde tree_int (codes "exp") payload

unfoldable pub decoded :
    {A : Type 0} → (Tree → Option A) → Text → Text → Validation → Result A ErrorKind
decoded read token key v = and_then (ok_or other_kind (opened token key)) λ m.
    and_then (ok_or other_kind (read m.1))
      λ a. and_then (checked v m.0.alg (issuer_of m.1) (exp_of m.1)) λ _. ok a

abbrev pub rsa_key : Bytes → Result Text Text
rsa_key pem = ok_or (codes "no PEM") (strip_prefix (codes "-----BEGIN") pem)

abbrev pub tokens : JsonWebToken Tree
tokens = record {
  EncodingKey = Text;
  DecodingKey = Text;
  encoding_key_from_rsa_pem = rsa_key;
  decoding_key_from_rsa_pem = rsa_key;
  decoding_key_from_rsa_components = λ n e. ok n;
  encode = λ header payload key. ok (token_of (header_tree header) payload key);
  decode = λ read token key v. decoded read token key v;
  decode_header = λ token. ok_or other_kind (header_of token);
}
