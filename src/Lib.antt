-- ===== src/Lib.antt =====
-- Verification of tamga-go, the Go SDK of the Tamga licensing server.
--
-- The program is one package of Go, with the cryptographic wrappers in internal/crypto. A client
-- sends JSON:API requests (client.go, transport.go), retries what the server throttles, and turns
-- error bodies into typed errors (errors.go). On it stand the calls: license validation
-- (license.go, validation.go), the activation of machines (machine.go, machine_read.go), and the
-- signing keys (signing_key.go). Checked-out license and machine files are verified offline
-- (checkout_license.go, checkout_machine.go, checkout_key_set.go), and fingerprint.go makes the
-- canonical fingerprint of a machine; proof.go verifies offline proofs. Policies (policy.go) give the
-- heartbeat interval of the schedulers, entitlement.go answers from a cache, and artifact.go,
-- release.go and health.go fetch what a product publishes.
--
-- Which file models which part:
--   Base, Text, Json        shared tests, lists, 64-bit integers; the functions of strings that
--                           the source uses, on lists of bytes; JSON values
--   Errors                  errors.go: the error values; Errors/Matching: errors.Is, errors.As;
--                           Errors/Exported: the other exported API errors
--   Http                    requests, responses, the history of a run, and the environment
--   Client                  client.go and transport.go: options, New, newRequest, Apply
--   Client/Retry            isRetryable, parseRetryAfter, retryDelay, doWith
--   Client/Decode           mapError, decodeJSONAPI, decodeFlat, doNoContent, doRawText
--   Resource                the structs of the JSON:API resources, and their decoders
--   Fingerprint             fingerprint.go; Fingerprint/Multiset: components up to order and padding
--   License                 license.go and validation.go, GetLicense of policy_read.go
--   Machine                 machine.go: creation, deletion, ActivateMachine, heartbeat calls
--   Machine/Read            machine_read.go: listing, updating, FindMachineByFingerprint
--   Machine/Reactivate      machine_read.go: ActivateMachineIdempotent
--   Machine/Heartbeat       machine.go and process_read.go: the heartbeat schedulers
--   Machine/Parts           machine.go and process_read.go: components and processes
--   Checkout                stripPEM, the clock check, and internal/crypto
--   Checkout/License        checkout_license.go
--   Checkout/Machine        checkout_machine.go
--   Checkout/KeySet         checkout_key_set.go
--   Checkout/Sealing        the text of a file whose document SealAESGCM sealed
--   Checkout/Fetch          CheckOutLicense and CheckOutMachine, of the same two files
--   SigningKey              signing_key.go
--   Proof                   proof.go
--   Entitlement             entitlement.go: the calls; Entitlement/Cache: HasEntitlement's cache
--   Artifact, Release       artifact.go, release.go
--   Policy                  policy.go and policy_read.go, with the float64 comparison of overages
--   Health                  health.go
--   Examples                small servers and files on which the theorems are run
-- The modules below these, such as Client/Laws/Rounds, hold the proofs.
--
-- How the code corresponds. A Go function has its own name in snake case. A string and a byte slice
-- are lists of bytes, a pointer that may be nil is an Option, `int` and `int64` are integers whose
-- products and sums that could overflow are wrapped at 64 bits. A call that talks to the server
-- takes the history of the run, newest event first, and returns the longer history and a result;
-- `Env.exchange` is the server, a function of the whole history, so it may answer each request in
-- any way. An error is a value of `GoError`, which keeps what errors.Is and errors.As can see and
-- drops the text. The modules of a method whose Go name two types share, such as Verify, stand for
-- the types: `Checkout.License.verify` is (*LicenseFile).Verify.
--
-- Parameters, since their code is not in the repository: the network and net/http, the clock, the
-- random source, encoding/json at the types of the program, url parsing and escaping, base64, and
-- the primitives of crypto. A caller's own transport is any function of the request; the theorems
-- that need it ask that it keep the request's method, as the five built-in transports do. The
-- encoders of a server are parameters too, of which the sealing theorems ask that the decoders undo
-- them (the record Undoes of Checkout/Sealing), as base64, encoding/json and AES-GCM do.
--
-- Bounds. The loop of doWith gets max_retries + 1 rounds as fuel, which is enough for every run.
-- The loop of FindMachineByFingerprint has no bound in the source, so its fuel is an argument.
-- Running out of fuel is an error of its own, which no other code makes.
--
-- Concurrency. The entitlement cache is shared by goroutines: a listing and the storing of what it
-- brought are two steps, between which other goroutines may do theirs. A scheduler's Run goes over
-- the sequence of what its select receives. A comparison of float64 is one of numbers rounded to 53
-- bits.
--
-- Not modelled: the redirects that net/http follows by itself, the contents of error messages, the
-- string constants that no function of the package reads, and ParsePKIXPublicKey, which only calls
-- the standard library.
pub mod Base
pub mod Text
pub mod Json
pub mod Errors
pub mod Http
pub mod Client
pub mod Resource
pub mod Fingerprint
pub mod License
pub mod Machine
pub mod Checkout
pub mod SigningKey
pub mod Proof
pub mod Entitlement
pub mod Artifact
pub mod Policy
pub mod Release
pub mod Health
pub mod Examples
