-- ===== src/Routes/Resource/Laws.antt =====
-- A resource type that is accepted is accepted again as it stands.
use Prim.Native.Char.{Char, char, code}
use Prim.Native.String
use Prim.Native.String.{[], ◌∷◌}
use text.Mathlib.TextLemmas.{nil-append, cons-append}
use dataspace_ica_ts.Common.{
  String, ◌≡◌, refl, true, false, not, inl, inr, Bool-cases, Option-cases, [], ◌∷◌, arith, is_empty,
  ◌==◌, ne→==_false,
}
use dataspace_ica_ts.Text.{is_space, trim, to_lower, join}
use dataspace_ica_ts.Text.Laws.{trim_idem, is_empty_cons}
use dataspace_ica_ts.Text.Tokens.{IsFree, IsFree-++, is_code, is_empty-++, trim-++}
use dataspace_ica_ts.Text.Slashes.{NoSlash}
use dataspace_ica_ts.Routes.Pattern.{drop_folded}
use dataspace_ica_ts.Routes.Pattern.Laws.{drop_folded-++}
use dataspace_ica_ts.Routes.Scope.{RouteEnv, Parsed, parsed, refuse_if, ◌>>◌}
use dataspace_ica_ts.Routes.Laws.Accepted.{bind-parsed, parsed_inj, refuse_if-not-parsed}
use dataspace_ica_ts.Routes.Resource.{
  is_digits, has_valid_numbers, is_valid_version_token, allows_test_prefix, version_message,
  disabled_message, test_message, parse_resource_type,
}

abbrev t : Char
t = char 116 tt

is_digits-unspaced : (s : String) → is_digits s ≡ true → IsFree is_space s
unfolding is_digits is_space
is_digits-unspaced [] h = tt
is_digits-unspaced (c ∷ s) h = (ground arith, is_digits-unspaced s (ground arith))

is_digits-NoSlash : (s : String) → is_digits s ≡ true → NoSlash s
unfolding is_digits
is_digits-NoSlash [] h = tt
is_digits-NoSlash (c ∷ s) h = (ground arith, is_digits-NoSlash s (ground arith))

-- A text of the resource types that routes name.
pub record IsResourceType (env : RouteEnv) (s : String) : Type 0 where
  pub named : is_empty s ≡ false
  pub trimmed : trim s ≡ s
  pub whole : NoSlash s
  pub accepted : parse_resource_type env s ≡ parsed s

contract-IsResourceType : (env : RouteEnv) → IsResourceType env "contract"
unfolding parse_resource_type trim to_lower
contract-IsResourceType env = record {
  named = refl;
  trimmed = refl;
  whole = ground arith;
  accepted = refl;
}

is_valid_version_token-digits : (s : String) → is_valid_version_token s ≡ true → is_digits s ≡ true
unfolding is_valid_version_token
is_valid_version_token-digits s h = ground arith

is_valid_version_token-ne_empty :
    (s : String) → is_valid_version_token s ≡ true → is_empty s ≡ false
unfolding is_valid_version_token has_valid_numbers
is_valid_version_token-ne_empty [] h = ground arith
is_valid_version_token-ne_empty (c ∷ s) h = is_empty_cons c s

version-IsResourceType :
    (env : RouteEnv) (s : String)
    → trim s ≡ s
    → is_valid_version_token s ≡ true
    → parse_resource_type env s ≡ parsed s
    → IsResourceType env s
version-IsResourceType env s trimmed valid accepted = record {
  named = is_valid_version_token-ne_empty s valid;
  trimmed = trimmed;
  whole = is_digits-NoSlash s (is_valid_version_token-digits s valid);
  accepted = accepted;
}

head_code : (c d : Char) (s u : String) → String.◌∷◌ c s ≡ String.◌∷◌ d u → code c ≡ code d
head_code c d s u e = ground arith

not_contract : (s : String) → (to_lower (String.◌++◌ "test-" s) == "contract") ≡ false
unfolding to_lower
not_contract s = rw (cons-append t "est-" s) (
    ne→==_false _ "contract" (λ e.
      let k : code t ≡ 99 =
        head_code t (char 99 tt) (to_lower (String.◌++◌ "est-" s)) "ontract" e in
      omega arith))

test_version-IsResourceType :
    (env : RouteEnv) (s : String)
    → allows_test_prefix env ≡ true
    → is_valid_version_token s ≡ true
    → IsResourceType env (String.◌++◌ "test-" s)
unfolding is_space join to_lower parse_resource_type
test_version-IsResourceType env s allowed valid =
    let digits = is_valid_version_token-digits s valid in
    let filled = is_valid_version_token-ne_empty s valid in
    let named = is_empty-++ "test-" s filled in
    let trimmed = trim-++ t "est-" s refl (is_digits-unspaced s digits) filled in
    let prefix : NoSlash "test-" = ground arith in
    record {
      named = named;
      trimmed = trimmed;
      whole = IsFree-++ (is_code 47) "test-" s prefix (is_digits-NoSlash s digits);
      accepted =
          rw
            (
              parse_resource_type,
              trimmed,
              named,
              not_contract s,
              drop_folded-++ "test-" s refl,
              allowed,
              valid,
              nil-append s,
            )
            refl;
    }

accept_test : String → Parsed String
accept_test inner =
    refuse_if (not (is_valid_version_token inner)) test_message
    >> parsed (join "" ("test-" ∷ inner ∷ []))

join-pair : (s t : String) → join "" (s ∷ t ∷ []) ≡ String.◌++◌ s t
unfolding join
join-pair s t = rw (nil-append t) refl

pub parse_resource_type-IsResourceType :
    (env : RouteEnv) (raw s : String)
    → parse_resource_type env raw ≡ parsed s
    → IsResourceType env s
unfolding parse_resource_type accept_test
parse_resource_type-IsResourceType env raw s h = elim (Bool-cases (is_empty (trim raw))) [
  | inl blank ↦ ground (arith, (rw (blank, parse_resource_type) at h))
  | inr named ↦ elim (Bool-cases (to_lower (trim raw) == "contract")) [
    | inl contract ↦
        let e = parsed_inj _ _ (rw (named, contract, parse_resource_type) at h) in
        rw (← e) (contract-IsResourceType env)
    | inr other ↦ elim (Option-cases (drop_folded "test-" (trim raw))) [
      | inl plain ↦
          let (_, valid, k) =
            bind-parsed (refuse_if (not (is_valid_version_token (trim raw))) version_message)
              (λ _. parsed (trim raw)) s (rw (named, other, plain, parse_resource_type) at h) in
          let token = refuse_if-not-parsed _ _ _ valid in
          rw (← parsed_inj _ _ k) (
            version-IsResourceType env (trim raw) (trim_idem raw) token (
              rw (parse_resource_type, trim_idem raw, named, other, plain)
                (rw (trim_idem raw, token) refl)))
      | inr (inner, found) ↦
          let (_, allowed, k) =
            bind-parsed (refuse_if (not (allows_test_prefix env)) disabled_message)
              (λ _. accept_test inner) s (rw (named, other, found, parse_resource_type) at h) in
          let (_, valid, e) =
            bind-parsed (refuse_if (not (is_valid_version_token inner)) test_message)
              (λ _. parsed (join "" ("test-" ∷ inner ∷ []))) s k in
          rw (← parsed_inj _ _ e) (
            rw (join-pair "test-" inner) (
              test_version-IsResourceType env inner (refuse_if-not-parsed _ _ _ allowed)
                (refuse_if-not-parsed _ _ _ valid)))
    ]
  ]
]
