-- ===== src/Auth/Encoded.antt =====
-- The text of a session token, and its parts read back, in src/api/tools/backend-auth-service.ts.
use Prim.Native.Char.{char}
use Prim.Native.String
use Prim.Native.String.{[], ◌∷◌}
use text.Mathlib.TextLemmas.{nil-append, cons-append}
use dataspace_ica_ts.Common.{
  ℕ, String, ◌≡◌, refl, true, false, some, List, [], ◌∷◌, arith, is_empty, ok,
}
use dataspace_ica_ts.Text.{is_space, trim, to_lower, join}
use dataspace_ica_ts.Text.Laws.{to_lower_idem, trim_idem, trim-to_lower}
use dataspace_ica_ts.Text.Tokens.{
  IsFree, is_code, trim-free, split-join_dots, join_dot-unspaced, trim-++,
}
use dataspace_ica_ts.Json.{Json, object, str}
use dataspace_ica_ts.Auth.{Platform, tenant_key}
use dataspace_ica_ts.Auth.Tokens.{
  ParsedJwt, parse_jwt_unverified, decode_part, bytes_equal, decode_bearer_token, build_jwt,
}

pub tenant_key_idem : (t : String) → tenant_key (tenant_key t) ≡ tenant_key t
unfolding tenant_key
tenant_key_idem t = rw (trim-to_lower (trim t), trim_idem t, to_lower_idem (trim t)) refl

pub bytes_equal_refl : (bytes : List ℕ) → bytes_equal bytes bytes ≡ true
unfolding bytes_equal
bytes_equal_refl [] = refl
bytes_equal_refl (b ∷ bytes) = ground (arith, bytes_equal_refl bytes)

abbrev pub jwt_header : Json
jwt_header = object (("alg", str "HS256") ∷ ("typ", str "JWT") ∷ [])

-- A text without dots and white space, as base64url texts are.
pub record IsPlain (s : String) : Type 0 where
  pub dotless : IsFree (is_code 46) s
  pub unspaced : IsFree is_space s

-- What the token relies on of the platform: JSON and bytes that are encoded are read back, and the
-- encoded texts are plain.
pub record IsCodec (p : Platform) (secret : String) (payload : Json) : Type 0 where
  pub reads_header : p.decode_json (p.encode_json jwt_header) ≡ some jwt_header
  pub reads_payload : p.decode_json (p.encode_json payload) ≡ some payload
  pub reads_mac :
      (text : String)
      → p.from_base64url (p.base64url (p.hmac_sha256 secret text)) ≡ p.hmac_sha256 secret text
  pub plain_header : IsPlain (p.encode_json jwt_header)
  pub plain_payload : IsPlain (p.encode_json payload)
  pub plain_mac : (text : String) → IsPlain (p.base64url (p.hmac_sha256 secret text))

abbrev pub signed_text : Platform → Json → String
signed_text p payload = join "" (p.encode_json jwt_header ∷ "." ∷ p.encode_json payload ∷ [])

abbrev pub read_jwt : Platform → Json → String → ParsedJwt
read_jwt p payload secret = record {
  header = jwt_header;
  payload = payload;
  signed_input = signed_text p payload;
  signature = p.base64url (p.hmac_sha256 secret (signed_text p payload));
}

pub build_jwt-unspaced :
    (p : Platform) (payload : Json) (secret : String)
    → IsCodec p secret payload
    → IsFree is_space (build_jwt p payload secret)
unfolding build_jwt
build_jwt-unspaced p payload secret c =
    join_dot-unspaced _ _ (join_dot-unspaced _ _ c.plain_header.unspaced c.plain_payload.unspaced)
      (c.plain_mac _).unspaced

pub decode_part-some :
    (p : Platform) (text : String) (j : Json)
    → p.decode_json text ≡ some j
    → decode_part p text ≡ ok j
unfolding decode_part
decode_part-some p text j h = rw (decode_part, h) refl

pub parse-build_jwt :
    (p : Platform) (payload : Json) (secret : String)
    → IsCodec p secret payload
    → parse_jwt_unverified p (build_jwt p payload secret) ≡ ok (read_jwt p payload secret)
unfolding parse_jwt_unverified build_jwt
parse-build_jwt p payload secret c =
    rw
      (
        trim-free _ (build_jwt-unspaced p payload secret c),
        split-join_dots (p.encode_json jwt_header) (p.encode_json payload) _ c.plain_header.dotless
            c.plain_payload.dotless (c.plain_mac _).dotless,
        decode_part-some p _ _ c.reads_header,
        decode_part-some p _ _ c.reads_payload,
      )
      refl

abbrev pub bearer : String → String
bearer t =
    char 66 tt
    ∷ (char 101 tt
        ∷ (char 97 tt ∷ (char 114 tt ∷ (char 101 tt ∷ (char 114 tt ∷ (char 32 tt ∷ t))))))

pub bearer-append : (t : String) → String.◌++◌ "Bearer " t ≡ bearer t
bearer-append t =
    rw
      (
        cons-append,
        cons-append,
        cons-append,
        cons-append,
        cons-append,
        cons-append,
        cons-append,
        nil-append t,
      )
      refl

pub decode-bearer :
    (token : String)
    → IsFree is_space token
    → is_empty token ≡ false
    → decode_bearer_token (join "" ("Bearer " ∷ token ∷ [])) ≡ ok token
unfolding decode_bearer_token join to_lower
decode-bearer token plain given =
    rw
      (
        nil-append token,
        trim-++ (char 66 tt) "earer " token spaced plain given,
        bearer-append token,
        trim-free token plain,
        given,
      )
      refl
  where
    spaced : is_space (char 66 tt) ≡ false
    spaced = unfold is_space in refl
