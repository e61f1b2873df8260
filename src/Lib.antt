-- ===== src/Lib.antt =====
-- A model of the CEL admission webhook, a Kubernetes admission webhook that evaluates
-- ValidatingAdmissionPolicies kept as custom resources, with theorems about it.
--
-- The parts and their files:
-- - Webhook: the HTTPS server of pkg/webhook/server.go. Review is reviewResponse; Handler is
--   parseRequest and handleWebhookValidate, from the HTTP request to the answer; Watch is notifyChanges,
--   which watches the TLS files; Serve is Run, with its goroutines and its WaitGroup; Watched is Run
--   together with its watch.
-- - Validator: the list of validators of pkg/validator/multi.go, which the server calls.
-- - Plugin: pkg/controller/admissionregistration.x-k8s.io/v1alpha1/plugin.go, the validator that waits
--   for the CEL evaluator and lets policies through.
-- - Resolver: pkg/controller/schemaresolver/resolver.go, the cache of schemas that the evaluator reads.
-- - Client: pkg/controller/transformed_client.go and client.go; Client/Convert is injected_client.go.
--   The evaluator's informers read the policies through this client; Client/Reading is about what
--   they are given.
-- - Controller and Lister: pkg/controller/generic.go and lister.go, a work-queue controller;
--   Controller/Lifecycle is its Run over time, and Lister/Generated the listers of
--   pkg/generated/listers.
-- - Api: pkg/apis/admissionregistration.x-k8s.io/v1alpha1. Types is types.go, Memory the pointers and
--   slices, Copy is zz_generated.deepcopy.go, with DeepCopy and DeepCopyObject of each type in
--   Copy/Every; an allocation takes the next free address.
-- - Pki: pkg/pki/ca.go, cert.go and pool.go, the authority and the certificates that it issues; Gentls
--   is cmd/gentls/main.go, which writes them to files.
-- - Interceptor: cmd/interceptor/main.go, the proxy. Replace, Scanner and Decimal are what it uses of
--   Go's strings, bufio and strconv; Server is runServer and main.
-- - Main: cmd/cel-admission-webhook/main.go. It puts the webhook, the validator list and the plugin
--   together: Startup goes from the flags to the wait for the goroutines, Lifecycle runs the server of
--   Webhook/Serve beside the plugin, Answer is about what the webhook answers to a request, and
--   Startup/Answer about the process that has started.
-- - Factory: pkg/generated/informers/externalversions/factory.go, the informers that are made once for a
--   type and started once; Factory/History runs the factory over a list of events, Factory/Order
--   forgets the order of its maps, and Factory/Groups are its informers and listers of both
--   resources and ForResource; Factory/Groups/Typing is about the types of the informers.
-- - Clientset: the clients of pkg/generated/clientset/versioned, and the registration of the types of
--   pkg/apis with a scheme. Requests is what the typed clients send and Fake what their fakes record
--   and list; Config makes the clients from a configuration and Made in the other ways, the fake
--   clientset included; Wrapped puts the typed client behind Client.
-- - Common and Kinds: Go's errors, results and maps, and the names of kinds and resources.
--
-- State is passed explicitly. The serving loop, the watch and the cache are functions of a list of
-- events (`run`, `watch`, `run` of Resolver/History); an event that cannot happen gives `none`, so no
-- fuel is needed, and every loop is a recursion on its list. What the code calls outside the repository
-- (encoding/json, the scheme's decoder, the informers, the work queue, the evaluator, the clock,
-- crypto/x509, the file system, the types and copies of metav1) is a parameter: the records Backend,
-- Host (of the plugin and of the proxy), Environment, Indexer, Codec, ClientInterface, RestClient,
-- FakeHost, RestHost, TrackerCalls, SchemeCalls, Libraries, Crypto, Meta and MetaCopies, and WriteFile.
-- Hypotheses on these are records too (PollLaws, KeyLaws, CryptoLaws, FileLaws, MetaIsDeep), and each
-- has an instance among the tests.
--
-- An error is its text with the StatusError that errors.As finds in it. A Go map is an association
-- list; a status code and a duration are natural numbers, and the timeout of a request is the 64 bits
-- of its int64. Logging, the metrics and the contexts that only pass through are left out. Not
-- modelled: the flag parser, the refresh interval of the REST mapper, Apply and ApplyStatus of the
-- transformed client, which only panic, and vendored code.
mod Common
mod Kinds
pub mod Api
pub mod Pki
pub mod Gentls
pub mod Interceptor
pub mod Main
pub mod Factory
pub mod Clientset
pub mod Webhook
pub mod Validator
pub mod Plugin
pub mod Resolver
pub mod Lister
pub mod Controller
pub mod Client
