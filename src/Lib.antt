-- ===== src/Lib.antt =====
-- A model of parts of cert-manager, the controller that obtains and renews certificates in Kubernetes,
-- with the theorems that make these parts correct.
--
-- The parts and their files:
-- - Conditions: pkg/api/util/conditions.go. Entry has the condition structs and the interface over which
--   the loops are written once, Update the loops, Operations one function for each exported one
--   (SetCertificateCondition is set_certificate_condition), Certificates and Requests what they do to
--   one another.
-- - Challenges: pkg/controller/acmechallenges/scheduler/scheduler.go and runScheduler of
--   pkg/controller/acmechallenges/controller.go. Scheduler has the operations, on the list of the
--   challenges in the store; Keys, Distinct, Dedupe, Selection, Candidates and Schedule lead from the order
--   on challenges to ScheduleN, and Runs to the store between passes.
-- - Solvers: Pick of pkg/util/solverpicker/solverpicker.go and pkg/controller/acmeorders/selectors.
--   Picker has the loop with its variables, Rounds one round of it; Usable and Weighing describe without
--   the loops which solvers can be used and how specific they are, Best the choice.
-- - Renewal: pkg/util/pki/renewaltime.go. Time has Go's arithmetic of times, Desired the time planned
--   from renewBefore and renewBeforePercentage, Windows the renewal windows.
-- - Trigger: pkg/controller/certificates/trigger/trigger_controller.go. Backoff and Delays are about
--   shouldBackoffReissuingOnFailure, Process and Issuance about ProcessItem, which takes the policy chain
--   as an argument and writes conditions by those of Conditions.
-- - Revisions: pkg/controller/certificates/revisionmanager/revisionmanager_controller.go.
-- - Policies: internal/controller/certificates/policies, checks.go, policies.go and constants.go: the
--   checks of the trigger, readiness and temporary certificate chains, their evaluation, and the keystore
--   check. The policies read RenewalTime of Renewal.
-- - WorkQueue: pkg/scheduler/scheduler.go. Steps has Add, Forget and the steps of the goroutine that
--   afterFunc starts, which run in any order; Tracking and Cancellation are about every run.
-- - Usages: pkg/api/util/usages.go, pkg/util/pki/keyusage.go and
--   KeyUsagesForCertificateOrCertificateRequest of pkg/util/pki/csr.go. Names has the names of usages and
--   Reading how they are read back, Encoding the ASN.1 extensions and Extension how these are decoded.
-- - Naming: pkg/api/util/names.go. Shorten has the functions, Length the lengths of their results.
-- - RequestManager: pkg/controller/certificates/requestmanager/requestmanager_controller.go, and
--   BuildAnnotationsToCopy of pkg/controller/util.go (Annotations and Copying). Sweep has the three loops
--   that delete requests, Process ProcessItem and the creation; Sweeping and Guards are lemmas about
--   them, Numbers, Decisions and Wanted describe which requests are kept without the code's functions,
--   Creation, Progress and Liveness say when a request is created and which are deleted. It
--   reads the conditions by Conditions, the key's Secret as Policies does and names requests by Naming.
-- - KeyManager: pkg/controller/certificates/keymanager/keymanager_controller.go, with the default rotation
--   policy of internal/apis/certmanager/v1/defaults.go. Process has ProcessItem and its methods for any
--   answers, Cluster its runs on a cluster that does what it is asked and whose listers are up to date;
--   Holding describes a Secret with a usable key without the code's functions, Deletions and Rounds are
--   lemmas about one run, Convergence is about repeated ones.
-- - Readiness: pkg/controller/certificates/readiness/readiness_controller.go. Process has ProcessItem, over the
--   chains of Policies, RenewalTime and SetCertificateCondition; Condition and Settling are about what it
--   writes.
-- - Issuing: pkg/controller/certificates/issuing/issuing_controller.go. Process has ProcessItem,
--   failIssueCertificate and issueCertificate; the results of ensureSecretData, ensureTemporaryCertificate and
--   the updates are arguments. Listing has the filters of pkg/util/predicate with which the request is listed
--   (pkg/controller/certificates/listers.go). Requests and Storing are about what is written to the target Secret, Counting about the
--   number of failed attempts.
-- - Lifecycle: the key manager and the request manager of one Certificate together.
-- - Common: shared tests, list operations, orders, integers. Examples: concrete runs.
--
-- Numbers and times: a time is its distance from the zero time in nanoseconds, a duration an integer; a
-- product of durations wraps at 64 bits and a difference is clamped as `Time.Sub` does. Texts that are
-- ordered are lists of bytes.
--
-- Fuel: the binary search of the renewal windows runs on 256 rounds of fuel (search_fuel), and finds no window
-- when these are used up; 63 are enough for
-- ends less than 2^63 nanoseconds apart (Renewal/Windows/Search). The loop over the bits of a byte has 8
-- rounds, that over the bits of a key usage as many as an unsigned integer has bits (uint_size), and
-- UnmarshalKeyUsage reads 9 bits. Other loops are structural.
--
-- Parameters: Go's package sort (record Sorter, with its documented laws), strconv, the two functions
-- of the DNS library, time zones and the parsed cron schedule, and the functions of pkg/util/pki that the
-- policies and the request manager call (record Pki, without laws); for the request manager strconv,
-- metav1.Time.Before and the hash of crypto/sha256 (record Tools), for the issuing
-- controller fmt.Sprintf, Before, IsControlledBy and EncodePrivateKey (a record Tools of its own), for the key manager the generation and the
-- encoding of keys (record Keys), for the readiness controller the semantic equality of apimachinery; encoding/asn1, whose Unmarshal decodes
-- what Marshal has encoded, for bit strings with zero padding and identifiers with arcs that it reads (record Asn1). The answers of the API server are arguments.
--
-- Not modelled: log lines, events and metrics; the text of formatted messages, which are a format and its
-- arguments; the set-up of queues and informers; the other controllers, the issuers, the webhook and the
-- commands; the checks of the post-issuance policy chain but the keystore check.
pub mod Common
pub mod Conditions
pub mod Challenges
pub mod Solvers
pub mod Trigger
pub mod Renewal
pub mod Revisions
pub mod Policies
pub mod WorkQueue
pub mod Usages
pub mod Naming
pub mod RequestManager
pub mod KeyManager
pub mod Readiness
pub mod Issuing
pub mod Lifecycle
pub mod Examples
