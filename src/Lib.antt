-- ===== src/Lib.antt =====
-- The Kamatera autoscaler, a Kubernetes controller that creates and removes cloud servers, modelled as
-- pure functions and step relations.
--
-- Parts and files. A path without a suffix is below internal/ of the repository.
--
--   Config: config/config.go, the configuration and `Validate`. Config.Valid describes validity without
--   the code. Config.Reserved: config/reserved.go. Config.Load: `Load` and `LoadCredentials`.
--   Kube: kubeclient/kubeclient.go, the interfaces PodLister, NodeLister and NodeMutator as the record
--   `Cluster`, and the client that implements them over the Kubernetes API. Kube.RestConfig: the choice of
--   the configuration to connect with.
--   Logging: logging/logging.go, `parseLevel` and the redaction of attributes.
--   Main: cmd/autoscaler/main.go of the repository's root, `main` with its exits, and the controller that
--   it makes of the configuration and the clients.
--   Kamatera: the cloud client. Types (types.go) and Errors (errors.go); Json and CommandId
--   (`decodeCommandID`), ClientOptions (`NewClient`), Service (the client as an interface), Redact
--   (`redactErr`, `truncate`), Http (`do` with its retries) and Create (`CreateServer`, `recoverByName`,
--   `FindServerByName`, `TerminateServer`) for client.go; Console for console_client.go, with the turns of
--   queries that share a client in Console.Queries; Watcher with Tick and Steps for watcher.go.
--   Controller: Host collects what the controller works with. Options (controller.go), Pending
--   (pending.go, sequences of calls in Pending.Calls), Match (pool_match.go), CloudInit (cloudinit.go),
--   ScaleUp and ScaleUp.Create (scale_up.go), Drain (drain.go), ScaleDown (scale_down.go), Run (the loop
--   of controller.go, with whole cycles), Run.Trail (the loop with the scale-up cycles taken apart).
--   Tests: the theorems at concrete data. Base: Booleans, integers, texts, lists, maps and results.
--
-- How the parts interact. The controller calls `Cluster` and `CloudClient`, two records of functions
-- from a world to a result and the next world. A scale-up cycle counts pending pods and nodes by pool,
-- enters the nodes that it starts in the tracker, and starts a goroutine for each, `create_node`, whose
-- request and whose wait are two steps of the loop, between whole cycles in `Turn` and anywhere in a
-- scale-up cycle in `Move`. A scale-down cycle drains an idle node, terminates its server and deletes its
-- node object. The cloud client sends requests with `do_request` and the queries of Console; a wait for a
-- command goes through the watcher, whose goroutine polls the queue.
--
-- How state is modelled. A function that changes state takes it and gives the next one. Calls that
-- change the cluster or the cloud are noted in the trace of `World`, and requests in the list `sent` of
-- the client's `State`, so that a theorem can say what was asked for and in what order. Go maps are
-- association lists; the order in which `range` visits a map is the argument `visit` of `scale_up`, and
-- any permutation in a snapshot of the watcher. Errors are values: those of internal/kamatera keep what
-- `errors.As` and `errors.Is` find in them, and log lines are left out.
--
-- Bounds. Counts are natural numbers, fields of the configuration and times are integers without a
-- bound, in nanoseconds; only the growing delay of `do` wraps around at 64 bits, as `delay *= 3` does. The
-- loops of `drainNode` and `recoverByName` run on fuel and give `none` without it. A pass of the drain
-- waits two seconds at least, so that half the seconds of its timeout and two more are enough fuel; a
-- pass of the recovery waits `recoveryPollEvery`, so that 42 passes are enough for the ten minutes that
-- Kamatera.Service gives it. The loop of `do` is as long as its attempts.
--
-- Parameters, for code that is not in the repository: the label selectors of k8s.io/apimachinery, the
-- Kubernetes API, net/http with the clock and the context (`Network`), encoding/json beyond the command
-- ids (`Codec`), text/template, crypto/rand.
--
-- In Main these are one record, `Machine`, with the environment, gopkg.in/yaml.v3, the file system and
-- k8s.io/client-go. Its `waits` is what the watcher answers to a wait for a command: the watcher runs
-- beside the controller, and is modelled by its steps.
--
-- Not modelled: the JSON handler of log/slog and the log lines, flags that do not parse, the signals and
-- the printed usage, and the options of a client for its HTTP client and its logger, all of which only
-- pass values to libraries; steps of creations between the calls of a scale-down cycle, which itself leaves
-- the tracker alone; and the blocking on the mutexes, since what one guards is one step.
pub mod Base
pub mod Config
pub mod Logging
pub mod Main
pub mod Kube
pub mod Kamatera
pub mod Controller
pub mod Tests
