-- ===== src/Lib.antt =====
-- A verification library for solid-pod-rs, a Solid pod server in Rust.
--
-- A pod stores resources under paths. A request reaches a handler of the server
-- (crates/solid-pod-rs-server/src/lib.rs), which for a write asks Web Access Control
-- (crates/solid-pod-rs/src/wac) for a grant: a walk from the path to the root finds the nearest
-- ACL document, and the evaluator matches its rules against the agent, the path, the mode, the
-- rule's conditions and the origin of the request. The handler then works on the storage
-- (crates/solid-pod-rs/src/storage) with the rules of the Linked Data Platform
-- (crates/solid-pod-rs/src/ldp.rs): names of new resources, link headers, conditional and range
-- requests, RDF graphs, N-Triples and PATCH documents. The identity provider
-- (crates/solid-pod-rs-idp/src) keeps sessions and authorisation codes.
--
-- The files and the code they model:
--
--   Prelude, Text, Error: shared. A text is a list of code points (Text), with the methods of
--     `str` that the code uses; Text/Decimal is the parser of u64, Text/Map a `HashMap` with texts
--     for keys, and Error the type `PodError` without its messages.
--   Wac/Mode, Wac/Document: the modes and `map_mode` (wac/mod.rs), the ACL document
--     (wac/document.rs). Wac/Condition: wac/conditions.rs, wac/client.rs, wac/issuer.rs.
--   Wac/Target: `normalize_path` and `path_matches`; Wac/Evaluator: the matching of rules;
--     Wac/Gate: the entry points with the origin gate, and `wac_allow_header` (wac/evaluator.rs,
--     wac/mod.rs). `evaluate_access_ctx` is the function of that name; its loop over the rules is
--     `base_grant`, one round of it `rule_grants`.
--   Wac/Origin: wac/origin.rs. Wac/Bounds: the limits of `parse_jsonld_acl` (wac/mod.rs).
--   Wac/Turtle: the parser of Turtle ACLs (wac/parser.rs); Wac/Turtle/Rules has the documents, and
--     Wac/Turtle/Write the serializer (wac/serializer.rs). Both splitters of the parser are
--     `split_scan`, with the characters that each of them looks for.
--   Wac/Resolver: `find_effective_acl` of wac/resolver.rs, and in Wac/Resolver/Server the server's
--     own copy of the walk. `visit` is one round of the loop, `walk` the loop.
--     Wac/Resolver/Nearest says what the ACLs on the way to the root say.
--   Ldp/Path, Ldp/Precondition, Ldp/Range, Ldp/Graph, Ldp/NTriples, Ldp/Patch, Ldp/Options,
--     Ldp/Prefer: the parts of ldp.rs. A `BTreeSet` is the list of its elements in the derived
--     order.
--   Storage/Memory: the backend in memory (storage/memory.rs). Storage/Fs: which file a path
--     stands for (storage/fs.rs).
--   Server/Handlers: GET, PUT, POST, PATCH and DELETE. A handler takes the storage and the request
--     and gives the response and the storage behind it. An error of a handler is the response that
--     it gives.
--   Auth/Nip98: auth/nip98.rs, and `extract_pubkey` of the server. `Crypto` is what the
--     third-party crates do.
--   Server/Middleware: the guards against traversal and dotfiles above the handlers; `serve` is
--     their stack, in the order in which actix-web runs it.
--   Security/Dotfile: `is_path_allowed`, and in Security/Dotfile/Allowlist `DotfileAllowlist`
--     (crates/solid-pod-rs/src/security/dotfile.rs).
--   Security/Ssrf, Security/RateLimit, Security/Cors: the files of those names in
--     crates/solid-pod-rs/src/security. Oidc/Replay: `DpopReplayCache` of oidc/replay.rs.
--   Lru: the interface of the `lru` crate, a record of operations and of laws from its
--     documentation, which the rate limiter and the replay cache take as a parameter; Lru/Model
--     has a cache that meets it.
--   Multitenant: multitenant.rs. Quota: quota/mod.rs, with the sidecars of all pods as the state.
--   Idp/Session: the store of sessions and codes (session.rs). Idp/Invite: invites.rs.
--   Tests: runs of the definitions, and the theorems at concrete inputs.
--
-- Bounds: integers are natural numbers with the tests for overflow that the code makes (u64 in
-- Text/Decimal and Ldp/Range); lengths are not bounded elsewhere. The walk to the root runs on
-- fuel, the length of the path and two, which is always enough, since each round but the last
-- leaves a shorter path or the root. The loops over objects and conditions in Wac/Turtle run on
-- the length of the text, since each round but the last passes a comma, and the loop that scrubs
-- dots in Multitenant on the length of the label, since each round but the last shortens it. All
-- else is structural recursion.
--
-- Arguments, for code that is not the repository's: the URL parser, the JSON parser, `from_utf8`,
-- the upper case of Unicode, the test that a header value is valid, the digest, random identifiers
-- and clocks, the DNS lookup, the decoding of percent escapes, the merging of slashes, and whether
-- the file system does what a quota operation asks. Arguments too, although functions of the
-- repository: the resolver's parser of Turtle ACLs, the SPARQL and JSON dialects of PATCH, and the
-- JSON of a container.
--
-- Not modelled: the serialisation of documents by serde, counters and logs, the tasks that forward
-- events to watchers, the file operations of the backend on the file system, configuration,
-- notifications, the tokens and keys of OIDC, the rest of the identity provider, ActivityPub, git,
-- did:key and nostr.
pub mod Prelude
pub mod Text
pub mod Error
pub mod Wac
pub mod Ldp
pub mod Auth
pub mod Lru
pub mod Multitenant
pub mod Quota
pub mod Storage
pub mod Oidc
pub mod Server
pub mod Security
pub mod Idp
mod Tests
