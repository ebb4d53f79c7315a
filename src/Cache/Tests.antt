-- ===== src/Cache/Tests.antt =====
-- Runs of src/api/tools/encrypted-runtime-cache.ts with a cipher that keeps the text.
use dataspace_ica_ts.Common.{◌≡◌, refl, none, some, List, [], ◌∷◌, ok}
use dataspace_ica_ts.Cache.{Cipher, empty_cache, set, get_fresh, get_stale_if_allowed}
use dataspace_ica_ts.Cache.Laws.{IsCipher, Storing, get_fresh-set}

abbrev plain : Cipher
plain = record { seal = λ iv value. ("tag", value); unseal = λ iv tag ciphertext. some ciphertext }

plain-IsCipher : IsCipher plain
plain-IsCipher iv value = refl

get_fresh-set_example :
    (get_fresh plain 1600 "api-key" (set plain 1000 "iv" "api-key" "s3cret" 500 9000 empty_cache)
      ≡ ok none)
    × (get_stale_if_allowed plain 1600 "api-key"
          (set plain 1000 "iv" "api-key" "s3cret" 500 9000 empty_cache)
        ≡ ok (some "s3cret"))
get_fresh-set_example =
    get_fresh-set plain 1000 1600 "iv" "api-key" "api-key" "s3cret" 500 9000 empty_cache
      plain-IsCipher

abbrev storings : List Storing
storings =
    record { now = 1000; iv = "iv"; key = "api-key"; value = "s3cret"; ttl_ms = 500; stale_ms = 0 }
    ∷ []
