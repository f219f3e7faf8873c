-- ===== src/Lib.antt =====
-- Verification library of agent-traffic-intelligence, a program that tells which automated client
-- sent a web request and how far its claimed identity is verified. Paths are from the repository's
-- root; all code lies under src/agent_traffic_intelligence/, left out below.
--
-- The program's parts, in the order in which a claim passes them:
--   Domain            models.py: the actor taxonomy and the claim
--   Identity.Evidence, Identity.Context
--                     identity/models.py, identity/context.py: reports, resolutions, request material
--   Network.Ranges, Network.Formats
--                     identity/network/ranges.py, formats/: published ranges and their two formats
--   Network.Official  identity/network/verifier.py: a claim against a publication of ranges
--   Network.Fcrdns    identity/network/fcrdns.py: forward-confirmed reverse DNS
--   Crypto.Replay     identity/crypto/replay.py: the nonces of signed requests
--   Crypto.Keys, Crypto.Components, Crypto.SignatureAgent, Crypto.Checks, Crypto.Reports,
--   Crypto.WebBotAuth
--                     identity/crypto/web_bot_auth.py, with the keys of directory.py and jwk_set.py
--                     and the references of signature_agent.py
--   Crypto.Keys.Documents
--                     the parsers of identity/crypto/directory.py and jwk_set.py
--   Crypto.AgentCard  identity/crypto/agent_card.py: the card of an agent
--   Crypto.Discovery, with Addresses and Cached
--                     identity/crypto/discovery.py, cached_discovery.py: from a reference to the
--                     documents in the cache that hold its keys
--   Crypto.ContentDigest
--                     identity/crypto/content_digest.py: the digest header of a document
--   Crypto.DirectoryResponse
--                     identity/crypto/directory_response.py: keys bound to an authority by a
--                     signed response
--   Identity.Profiles identity/profiles.py: the packaged registry of provider profiles
--   Sources.Documents, Sources.Records
--                     identity/sources/models.py: source documents, and their JSON objects
--   Sources.Trust     identity/sources/trust.py: canonical addresses and the allowlist
--   Sources.Cache     identity/sources/cache.py, manifest.py: the offline cache of documents
--   Sources.Exchange, Sources.Fetcher
--                     identity/sources/fetcher.py: redirects, address checks and the response checks
--   Sources.Service   identity/source_service.py: fetches and revalidates documents for the cache
--   Ingestion         ingestion/jsonl.py: log records to normalized requests
--   Features.Session  features/session.py: the bounded history of each client
--   Identity.Manager  identity/manager.py: runs the verifiers and collects their evidence
--   Identity.Resolver identity/resolver.py: the verdict on the evidence
--   Detection         detection/pipeline.py, with rules/baseline.py, scoring.py, registry.py and the
--                     statistics of features/: the evidence on a request, and its scores
--   Json, Runtime     the JSON values, and Python's runtime as a record of functions
-- The verifiers report VerificationEvidence; the manager turns it, with a report for each timeout
-- and each exception, into one VerificationResolution through the resolver. The detector asks the
-- manager for the claim that the registry finds in a request, and the source service fills the
-- cache that key discovery and the official ranges read.
--
-- State. These parts keep state, which their operations take and give back: the replay cache
-- (`seen_or_add`, `verify` of Crypto.WebBotAuth), the session histories (`update`), the files of
-- the source cache (`put_document`, `get_document`), where writing a file is one step, and the
-- detector's histories (`detect`). An ordered dict is a list of its entries, the oldest first. Loops
-- are structural recursion over the lists that the code loops over; the `while True` of the fetcher
-- runs on fuel, one more than the redirect limit, and a result below says that this is enough. A
-- generator is the list of what it yields, with how it ends. An exception that the code catches is
-- a value (`Result`, `Check`, `Option`, `Attempt`); one that leaves the function is `none`, a
-- `Failure` of the fetcher, a `DiscoveryFailure` or an `Outcome`.
--
-- Not modelled: the functions of the runtime (case folding, JSON, date and number parsing,
-- ipaddress, SHA-256, blake2b, URL splitting and joining, the suffix of a path), floating-point
-- arithmetic, the regular expression for generic bots, DNS, the TLS transport, the clock, the
-- RFC 9421 check and the Structured Fields parser, which are parameters; the
-- configured verifiers (identity/configured.py), the health report on the standards
-- (identity/standards_health.py), the constructor checks of VerificationEvidence, the latest date
-- of a datetime, reading the registry's file, evaluation, the HTTP server and the
-- command line. Times are whole seconds where the code reads `int(now.timestamp())`, and instants
-- in microseconds otherwise.
pub mod Prelude
pub mod Domain
pub mod Identity
pub mod Crypto
pub mod Json
pub mod Runtime
pub mod Network
pub mod Sources
pub mod Features
pub mod Detection
pub mod Ingestion
pub mod Tests
