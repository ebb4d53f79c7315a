-- ===== src/Cache/Laws.antt =====
-- Which secret the cache of src/api/tools/encrypted-runtime-cache.ts returns, and until when.
use dataspace_ica_ts.Common.{
  ℕ, ◌+◌, ◌≤◌, String, ◌≡◌, refl, none, some, List, [], ◌∷◌, arith, ltb, ◌==◌, if◌then◌else◌, ok,
  Option-cases, Bool-cases, inl, inr,
}
use dataspace_ica_ts.Dict.{get}
use dataspace_ica_ts.Dict.Laws.{get-put}
use dataspace_ica_ts.Cache.{
  Cipher, CachedSecret, Cache, empty_cache, set, decrypt, get_fresh, get_stale_if_allowed,
}

-- What the cipher seals, it opens.
abbrev pub IsCipher : Cipher → Type 0
IsCipher c = (iv value : String) → c.unseal iv (c.seal iv value).0 (c.seal iv value).1 ≡ some value

decrypt-seal :
    (c : Cipher) (iv value : String) (expires stale : ℕ)
    → IsCipher c
    → decrypt c (record {
      iv = iv;
      tag = (c.seal iv value).0;
      ciphertext = (c.seal iv value).1;
      expires_at_ms = expires;
      stale_until_ms = stale;
    })
      ≡ ok (some value)
unfolding decrypt
decrypt-seal c iv value expires stale h = rw (h iv value) refl

-- After a secret is stored under a key, a read of that key returns it until its time to live has
-- passed, and where stale values are allowed until the further time has passed too, and from then on
-- nothing; a read of another key returns what it returned before. The cipher must open what it seals.
pub get_fresh-set :
    (c : Cipher) (now later : ℕ) (iv key other value : String) (ttl stale : ℕ) (cache : Cache)
    → IsCipher c
    → (get_fresh c later other (set c now iv key value ttl stale cache) ≡ (
        if key == other
        then (if ltb (now + ttl) later then ok none else ok (some value))
        else get_fresh c later other cache))
      × (get_stale_if_allowed c later other (set c now iv key value ttl stale cache) ≡ (
          if key == other
          then (if ltb (now + ttl + stale) later then ok none else ok (some value))
          else get_stale_if_allowed c later other cache))
unfolding get_fresh get_stale_if_allowed set
get_fresh-set c now later iv key other value ttl stale cache h =
    let opened = decrypt-seal c iv value (now + ttl) (now + ttl + stale) h in
    elim (Bool-cases (key == other)) [
      | inl e ↦ (simp (get-put, e, opened), simp (get-put, e, opened))
      | inr e ↦ (simp (get-put, e), simp (get-put, e))
    ]

-- A call that stores a secret: the time, the vector, the key, the value and the two times to live.
pub record Storing : Type 0 where
  pub now : ℕ
  pub iv : String
  pub key : String
  pub value : String
  pub ttl_ms : ℕ
  pub stale_ms : ℕ

abbrev pub store_all : Cipher → List Storing → Cache → Cache
store_all c [] cache = cache
store_all c (s ∷ ss) cache =
    store_all c ss (set c s.now s.iv s.key s.value s.ttl_ms s.stale_ms cache)

abbrev IsOrdered : Cache → Type 0
IsOrdered cache =
    (key : String) (entry : CachedSecret)
    → get key cache ≡ some entry
    → entry.expires_at_ms ≤ entry.stale_until_ms

abbrev stored : Cipher → Storing → CachedSecret
stored c s = record {
  iv = s.iv;
  tag = (c.seal s.iv s.value).0;
  ciphertext = (c.seal s.iv s.value).1;
  expires_at_ms = s.now + s.ttl_ms;
  stale_until_ms = s.now + s.ttl_ms + s.stale_ms;
}

set-IsOrdered :
    (c : Cipher) (s : Storing) (cache : Cache)
    → IsOrdered cache
    → IsOrdered (set c s.now s.iv s.key s.value s.ttl_ms s.stale_ms cache)
unfolding set
set-IsOrdered c s cache h key entry e =
    ground (arith, get-put s.key key (stored c s) cache, h key entry)

store_all-IsOrdered :
    (c : Cipher) (ss : List Storing) (cache : Cache)
    → IsOrdered cache
    → IsOrdered (store_all c ss cache)
store_all-IsOrdered c [] cache h = h
store_all-IsOrdered c (s ∷ ss) cache h = store_all-IsOrdered c ss _ (set-IsOrdered c s cache h)

-- In a cache that was filled by any calls, a secret that is still returned as fresh is also returned
-- where stale values are allowed.
get_stale-get_fresh :
    (c : Cipher) (ss : List Storing) (now : ℕ) (key value : String)
    → get_fresh c now key (store_all c ss empty_cache) ≡ ok (some value)
    → get_stale_if_allowed c now key (store_all c ss empty_cache) ≡ ok (some value)
unfolding get_fresh get_stale_if_allowed
get_stale-get_fresh c ss now key value h =
    let cache = store_all c ss empty_cache in
    let ordered =
      store_all-IsOrdered c ss empty_cache (λ k entry e. unfold get in absurd (ground arith)) in
    elim (Option-cases (get key cache)) [
      | inl e ↦ absurd (ground arith)
      | inr (entry, e) ↦ ground (arith, ordered key entry e)
    ]
