-- ===== src/Lib.antt =====
-- The verification library of dataspace-ica: an authority for the credentials of a data space, whose
-- HTTP API takes every request as an asynchronous job. A request manager (src/api/managers) puts a job
-- under its thread id into a store and leaves the work to the event loop; a response manager reads
-- the job for a poller; backends sign in to the authority by an API key and the PKCE exchange.
--
-- Files, and the code that they model:
--   Common, Text, Dict, Json   what the code uses of the language: conditionals, results, strings,
--                              Map with text keys, JSON values
--   Jobs                       src/api/entity-job-store.ts; Jobs.Laws, Jobs.Expiry: its
--                              invariant and reads
--   Jobs.Verification          src/api/job-store.ts; Jobs.Verification.Refines: it refines Jobs
--   Jobs.Activation            src/api/activation-job-store.ts
--   Jobs.Tasks, Jobs.Isolation the event loop around a store, as a step relation; Jobs.Reused: a
--                              thread id that is submitted twice
--   Didcomm, Paths             src/api/tools/didcomm-message.ts; response locations of src/api/path.ts
--   Poll                       `poll` of src/api/managers/*-response-manager.ts; Poll.Bodies,
--                              Poll.Credentials, Poll.Entities, Poll.Documents, Poll.Backend: what each
--                              manager writes of its own; Poll.Laws: what a poller learns
--   Config                     src/api/security-mode.ts, network-kind.ts, supported-sectors.ts,
--                              supported-jurisdictions.ts
--   Routes                     the parsers of src/api/path.ts: Routes.Pattern and Routes.Expressions (the
--                              regular expressions), Routes.Scope and Routes.Resource (the checks),
--                              Routes.Documents, Entity, Network, Credentials, Access, Dcat (one
--                              parser for each kind of route); Routes.Laws proves
--   Auth                       src/api/tools/backend-auth-service.ts: Auth.Keys (API keys), Auth.Pkce
--                              (binding and exchanges), Auth.Tokens and Auth.Base58 (session tokens,
--                              hashes of emails), Auth.Events (the calls in sequence); the other
--                              modules under Auth prove
--   Ledger                     src/api/tools/credential-ledger.ts: Ledger.Config, Ledger.Canonical,
--                              Ledger.Projection (the asset of a credential), Ledger.Service (the
--                              calls, over an adapter); Ledger.Laws proves
--   Multihash                  src/api/tools/multihash.ts: Multihash (base 58), Multihash.Hex (digests in
--                              hexadecimal), Multihash.SameAs (`sameAs` values); Multihash.Digits,
--                              Multihash.Laws, the Laws below Hex and SameAs, and
--                              Multihash.SameAs.Again prove
--   Cache                      src/api/tools/encrypted-runtime-cache.ts
--   Spaces                     src/api/tools/spaces-registry.ts, and `dedupeTargets` of
--                              src/api/tools/dataspace-sync.ts
--   */Tests, Auth.TokenTests   runs at concrete inputs
--
-- Paths are from the root of the repository. A function of the code has its name here in snake case
-- (`markSucceeded` is `mark_succeeded`). State is passed explicitly, and a call that throws returns a
-- `Result`. `Date.now()` and `randomUUID()` are arguments, as are the variables of the environment.
--
-- Parameters: `Auth.Platform` has the digests, the MAC, base64url and the text of JSON values;
-- `Ledger.Platform` has SHA3-384, JSON text and the reading of base64url; `Ledger.Service.Adapter` is
-- the ledger, whose calls may fail (`Ledger.Laws.Contract.IsLedger` is what is relied on: the Fabric
-- adapter meets it if its network says "does not exist" only of an id that has no asset);
-- `Didcomm.Settings` has the URL parser and the form encoding, `Cache.Cipher` the encryption of
-- secrets. A theorem that relies on them states what it relies on (`Auth.Encoded.IsCodec`,
-- `Cache.Laws.IsCipher`).
--
-- Bounds: numbers are natural and not bounded, as times and counts in the code stay far below 2^53;
-- JSON numbers are natural. Letters are folded within ASCII. All loops are structural; the division
-- by 58 in Auth.Base58 has fuel of two steps for each byte, which is enough as 58 * 58 is above 256; the
-- carry in Multihash is divided as often as the carry is, at most.
--
-- Not modelled: the HTTP server and the parsing of request bodies, the work of the request managers,
-- PDF and X.509 verification, the assembly and signing of credentials, the gRPC adapter of the ledger,
-- storage, migration; and calls of the ledger service that interleave.
pub mod Common
pub mod Text
pub mod Dict
pub mod Json
pub mod Jobs
pub mod Didcomm
pub mod Paths
pub mod Poll
pub mod Config
pub mod Routes
pub mod Auth
pub mod Ledger
pub mod Multihash
pub mod Cache
pub mod Spaces
