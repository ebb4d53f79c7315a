-- ===== src/Routes/Laws/Disjoint.antt =====
-- No path is matched by two of the expressions, so that the order in which the parsers are tried does
-- not matter.
use dataspace_ica_ts.Common.{
  ◌≤◌, String, ◌≡◌, refl, Bool, true, false, not, ◌&&◌, inl, inr, Bool-cases, Option-cases, Option,
  some, none, is_some, List, [], ◌∷◌, arith, ◌==◌, any, keep, length, eq_iff, if◌then◌else◌,
}
use dataspace_ica_ts.Text.{to_lower, split}
use dataspace_ica_ts.Routes.Pattern.{
  Segment, fixed, capture, after, one_of, match_segment, match_parts, exec,
}
use dataspace_ica_ts.Routes.Expressions.{
  verify_route, terms_remove_route, entity_keys_route, entity_did_document_route,
  network_evidence_route, network_policy_delegation_route, network_credential_route,
  network_credential_status_route, network_credential_revoke_route, network_credential_search_route,
  network_credential_retrieve_route, network_spaces_route, dcat_catalog_request_route,
  dcat_catalog_dataset_route, dcat_catalog_ddo_request_route, dcat_catalog_ddo_dataset_route,
  controller_exchange_route, api_key_provisioning_route, identity_auth_route,
}

-- The texts, in lower case, that a segment without `[^/]+` accepts.
abbrev texts_of : Segment → Option (List String)
texts_of (fixed text) = some (text ∷ [])
texts_of capture = none
texts_of (after prefix) = none
texts_of (one_of texts) = some texts

abbrev lists : List String → String → Bool
lists texts s = any (λ text. s == text) texts

match_segment-lists :
    (segment : Segment) (texts : List String) (part : String) (group : Option String)
    → texts_of segment ≡ some texts
    → match_segment segment part ≡ some group
    → lists texts (to_lower part) ≡ true
unfolding match_segment
match_segment-lists (fixed text) texts part group e h = ground arith
match_segment-lists capture texts part group e h = cc
match_segment-lists (after prefix) texts part group e h = cc
match_segment-lists (one_of own) texts part group e h = ground arith

abbrev share : List String → List String → Bool
share xs ys = any (λ x. lists ys x) xs

lists-share :
    (xs ys : List String) (s : String) → lists xs s ≡ true → lists ys s ≡ true → share xs ys ≡ true
lists-share [] ys s h k = cc
lists-share (x ∷ xs) ys s h k = elim (Bool-cases (s == x)) [
  | inl same ↦ ground (arith, (rw ((eq_iff s x).0 same) at k))
  | inr other ↦ ground (arith, lists-share xs ys s)
]

-- No part is accepted by both segments.
abbrev clash : Segment → Segment → Bool
clash p q = elim (texts_of p) [
  | none ↦ false
  | some xs ↦ elim (texts_of q) [ none ↦ false | some ys ↦ not (share xs ys) ]
]

clash-match_segment :
    (p q : Segment) (part : String) (g h : Option String)
    → clash p q ≡ true
    → match_segment p part ≡ some g
    → match_segment q part ≡ some h
    → ⊥
clash-match_segment p q part g h c matched_p matched_q = elim (Option-cases (texts_of p)) [
  | inl open_p ↦ ground (arith, (rw (open_p, clash) at c))
  | inr (xs, xs_of) ↦ elim (Option-cases (texts_of q)) [
    | inl open_q ↦ ground (arith, (rw (xs_of, open_q, clash) at c))
    | inr (ys, ys_of) ↦ ground (
      arith,
      (rw (xs_of, ys_of, clash) at c),
      lists-share xs ys (to_lower part) (match_segment-lists p xs part g xs_of matched_p)
          (match_segment-lists q ys part h ys_of matched_q),
    )
  ]
]

-- At some segment the two expressions clash, or their lengths differ.
abbrev apart : List Segment → List Segment → Bool
apart [] [] = false
apart [] (_ ∷ _) = true
apart (_ ∷ _) [] = true
apart (p ∷ ps) (q ∷ qs) = let rest = apart ps qs in if clash p q then true else rest

abbrev pub matches : String → List Segment → Bool
matches pathname expression = is_some (exec expression pathname)

match_parts-cons :
    (segment : Segment) (segments : List Segment) (part : String) (parts : List String)
    → is_some (match_parts (segment ∷ segments) (part ∷ parts)) ≡ true
    → (group : Option String) × (match_segment segment part ≡ some group)
      × (is_some (match_parts segments parts) ≡ true)
unfolding match_parts
match_parts-cons segment segments part parts h = elim (Option-cases (match_segment segment part)) [
  | inl missed ↦ ground (arith, (rw (missed, match_parts) at h))
  | inr (group, found) ↦ elim (Option-cases (match_parts segments parts)) [
    | inl missed ↦ ground (arith, (rw (found, missed, match_parts) at h))
    | inr (groups, matched) ↦ (group, found, rw matched refl)
  ]
]

apart-match_parts :
    (ps qs : List Segment) (parts : List String)
    → apart ps qs ≡ true
    → is_some (match_parts ps parts) ≡ true
    → is_some (match_parts qs parts) ≡ true
    → ⊥
unfolding match_parts
apart-match_parts [] [] parts a h k = cc
apart-match_parts [] (q ∷ qs) [] a h k = ground arith
apart-match_parts [] (q ∷ qs) (part ∷ parts) a h k = ground arith
apart-match_parts (p ∷ ps) [] [] a h k = ground arith
apart-match_parts (p ∷ ps) [] (part ∷ parts) a h k = ground arith
apart-match_parts (p ∷ ps) (q ∷ qs) [] a h k = ground arith
apart-match_parts (p ∷ ps) (q ∷ qs) (part ∷ parts) a h k =
    let (g, p_matched, ps_matched) = match_parts-cons p ps part parts h in
    let (g', q_matched, qs_matched) = match_parts-cons q qs part parts k in
    elim (Bool-cases (clash p q)) [
      | inl e ↦ clash-match_segment p q part g g' e p_matched q_matched
      | inr e ↦ apart-match_parts ps qs parts (rw e at a) ps_matched qs_matched
    ]

abbrev apart_all : List Segment → List (List Segment) → Bool
apart_all e [] = true
apart_all e (f ∷ fs) = apart e f && apart_all e fs

abbrev pairwise_apart : List (List Segment) → Bool
pairwise_apart [] = true
pairwise_apart (e ∷ es) = apart_all e es && pairwise_apart es

keep-apart :
    (pathname : String) (e : List Segment) (es : List (List Segment))
    → apart_all e es ≡ true
    → matches pathname e ≡ true
    → keep (matches pathname) es ≡ []
unfolding exec
keep-apart pathname e [] a h = refl
keep-apart pathname e (f ∷ fs) a h = elim (Bool-cases (matches pathname f)) [
  | inl both ↦
      let no : ⊥ = apart-match_parts e f (split 47 pathname) (ground arith) h both in
      ground (arith, no)
  | inr missed ↦ rw missed (keep-apart pathname e fs (ground arith) h)
]

pairwise_apart-keep :
    (pathname : String) (es : List (List Segment))
    → pairwise_apart es ≡ true
    → length (keep (matches pathname) es) ≤ 1
pairwise_apart-keep pathname [] a = omega arith
pairwise_apart-keep pathname (e ∷ es) a = elim (Bool-cases (matches pathname e)) [
  | inl found ↦ rw (found, keep-apart pathname e es (ground arith) found) (omega arith)
  | inr missed ↦ rw missed (pairwise_apart-keep pathname es (ground arith))
]

-- The expressions of all parsers.
abbrev pub expressions : List (List Segment)
expressions =
    verify_route ∷ terms_remove_route ∷ entity_keys_route ∷ entity_did_document_route
    ∷ network_evidence_route ∷ network_policy_delegation_route ∷ network_credential_route
    ∷ network_credential_status_route ∷ network_credential_revoke_route
    ∷ network_credential_search_route ∷ network_credential_retrieve_route ∷ network_spaces_route
    ∷ dcat_catalog_request_route ∷ dcat_catalog_dataset_route ∷ dcat_catalog_ddo_request_route
    ∷ dcat_catalog_ddo_dataset_route ∷ controller_exchange_route ∷ api_key_provisioning_route
    ∷ identity_auth_route ∷ []

-- Of the expressions of all the parsers, at most one matches a path.
pub expressions_disjoint : (pathname : String) → length (keep (matches pathname) expressions) ≤ 1
expressions_disjoint pathname = pairwise_apart-keep pathname expressions refl
