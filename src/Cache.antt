-- ===== src/Cache.antt =====
-- src/api/tools/encrypted-runtime-cache.ts: secrets kept encrypted in memory, each with a time until
-- which it is fresh and one until which it may still be used where its source fails.
pub mod Laws
pub mod Tests
use dataspace_ica_ts.Common.{
  ℕ, ◌+◌, String, Option, none, some, [], ltb, if◌then◌else◌, Result, ok, throw, ◌>>=◌, require,
}
use dataspace_ica_ts.Dict.{Dict, get, put}

-- AES-256-GCM of the platform under the session key of the cache; all texts are in base64.
pub record Cipher : Type 0 where
  -- the tag and the ciphertext of a text, by the initialisation vector
  pub seal : String → String → String × String
  -- the text by the vector, the tag and the ciphertext; `none` where the tag does not fit
  pub unseal : String → String → String → Option String

pub record CachedSecret : Type 0 where
  pub iv : String
  pub tag : String
  pub ciphertext : String
  pub expires_at_ms : ℕ
  pub stale_until_ms : ℕ

abbrev pub Cache : Type 0
Cache = Dict CachedSecret

abbrev pub empty_cache : Cache
empty_cache = []

-- `set`. The times to live are in whole milliseconds, as `Math.max(0, Math.floor(seconds * 1000))`
-- gives them; `iv` is what `randomBytes(12)` draws.
unfoldable pub set : Cipher → ℕ → String → String → String → ℕ → ℕ → Cache → Cache
set c now iv key value ttl_ms stale_ms cache =
    let (tag, ciphertext) = c.seal iv value in
    let entry : CachedSecret = record {
      iv = iv;
      tag = tag;
      ciphertext = ciphertext;
      expires_at_ms = now + ttl_ms;
      stale_until_ms = now + ttl_ms + stale_ms;
    } in
    put key entry cache

unfoldable pub decrypt : Cipher → CachedSecret → Result (Option String)
decrypt c entry = do
  value ←
      require (c.unseal entry.iv entry.tag entry.ciphertext)
        "Unsupported state or unable to authenticate data"
  ok (some value)

read_until : Cipher → ℕ → (CachedSecret → ℕ) → Option CachedSecret → Result (Option String)
read_until c now limit none = ok none
read_until c now limit (some entry) = if ltb (limit entry) now then ok none else decrypt c entry

-- `getFresh`
unfoldable pub get_fresh : Cipher → ℕ → String → Cache → Result (Option String)
unfolding read_until
get_fresh c now key cache = read_until c now (λ entry. entry.expires_at_ms) (get key cache)

-- `getStaleIfAllowed`
unfoldable pub get_stale_if_allowed : Cipher → ℕ → String → Cache → Result (Option String)
unfolding read_until
get_stale_if_allowed c now key cache =
    read_until c now (λ entry. entry.stale_until_ms) (get key cache)

unfoldable pub clear : Cache → Cache
clear cache = []
