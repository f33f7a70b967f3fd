-- ===== src/Lib.antt =====
-- Cloud-native service control plane: a model of the Go program and the theorems about it.
--
-- The program has an operator and an API. The API (internal/controlplaneapi) answers HTTP requests
-- with a bearer token and creates, lists, gets and deletes ManagedServices of the namespace
-- "applications" through a Kubernetes client. The operator (internal/controller) reconciles each
-- ManagedService: it checks that the image is an immutable reference, writes a Deployment and a
-- Service, and records the outcome in the status of the ManagedService and in metrics. What both
-- share is the ManagedService (api/v1alpha1/managedservice_types.go): the API writes its name and
-- its spec, the operator its status, which the API shows. Both HTTP commands wrap their handler with
-- the telemetry of internal/telemetry: an identifier, metrics and a line in the log for each request.
-- They serve it, beside a server for the metrics, until a signal, and then shut both down.
--
-- Files and code:
--   Base, Base/*               tests on numbers, integers and lists over the native numbers
--   Text, Text/*               byte strings: search, case folding, UTF-8, order, hexadecimal digits
--   Errors                     Go errors as values, fmt.Errorf with %w, errors.Join
--   Types                      api/v1alpha1/managedservice_types.go
--   Controller/Image           validateImmutableImage of
--                              internal/controller/managedservice_resources.go
--   Controller/Labels, Workload, Resources
--                              the labels, the Kubernetes objects, and reconcileDeployment and
--                              reconcileService of the same file
--   Controller/Conditions      meta.SetStatusCondition and meta.FindStatusCondition, an interface
--   Controller/Status          internal/controller/managedservice_status.go
--   Controller/Metrics         the observations of internal/controller/managedservice_metrics.go
--   Controller/Reconcile       Reconcile of internal/controller/managedservice_controller.go
--   ControlPlaneApi/Http, Mux, Auth, Requests, Handler
--                              internal/controlplaneapi/handler.go: the requests and answers, the
--                              router, authentication, decoding and showing, and ServeHTTP
--   ControlPlaneApi/Store      internal/controlplaneapi/store.go
--   ControlPlaneApi/Config     LoadToken of internal/controlplaneapi/config.go
--   Telemetry/Labels, Recorder, Handler
--                              internal/telemetry/http.go: identifiers and labels, responseRecorder,
--                              and NewHTTPHandler
--   Telemetry/Metrics          requestStarted and requestFinished of internal/telemetry/metrics.go
--   Telemetry/Listeners        ServeUntilShutdown of internal/telemetry/server.go up to the start of
--                              the servers: a listener for each, or none
--   Telemetry/Shutdown         the rest of ServeUntilShutdown, as a step relation: one goroutine for
--                              each server, the channel of results, and the main goroutine
--   Telemetry/MetricsServer    NewMetricsServer of internal/telemetry/server.go
--   Telemetry/Tracing          internal/telemetry/tracing.go
--   Registry                   NewManagedServiceMetrics of
--                              internal/controller/managedservice_metrics.go and NewHTTPMetrics of
--                              internal/telemetry/metrics.go
--   DemoHttp                   NewHandler and NormalizeRoute of internal/demohttp/handler.go
--   Commands, Commands/Api, Commands/Demo
--                              run of cmd/control-plane-api/main.go and of cmd/demo-http/main.go
--   Commands/Public            the public handler of cmd/control-plane-api/main.go: the API behind the
--                              telemetry
--   Commands/Manager           main of cmd/main.go, and SetupWithManager of
--                              internal/controller/managedservice_controller.go
--   EndToEnd                   the API and the operator on one cluster
--   Ports                      ParsePort of internal/controlplaneapi/config.go and of
--                              internal/demohttp/handler.go, and ParseMetricsPort of
--                              internal/telemetry/server.go
--   Examples/*                 concrete libraries, tests, and the theorems at concrete inputs
-- A file below another one in a directory of its name, and not listed here, holds the theorems about it.
--
-- How code and model correspond. A Go string is the list of its bytes. A pointer is an option, an
-- error a value of Errors, and a function with side effects takes a state and returns the next one
-- with its result: for the operator the state `W` of the cluster and the list of observations of
-- the metrics, in their order; for the API the state `W` behind the store. `W` is arbitrary. A
-- Response is what a handler writes: the header lines that it sets, the status, and the value that
-- is encoded. DeepCopy has no counterpart, since values do not change. Integers are unbounded: the
-- program compares and copies those that it reads, and does no arithmetic on them, except for
-- strconv.Atoi, whose range check is written out (Text/Number), and for counts of bytes.
-- All recursion is structural, on lists: nothing takes fuel. What the goroutines of ServeUntilShutdown
-- do is the steps of a relation, which come in any order, one action at a time.
--
-- What is a parameter, because the program only calls it, and what is supposed of it:
--   the Kubernetes client of the API (ClientLaws of ControlPlaneApi/Store/Scope), the cluster of the
--   operator with Get, CreateOrUpdate, the status patch, SetControllerReference and
--   equality.Semantic.DeepEqual (ClusterLaws of Controller/Reconcile/Laws/Persist), the functions on
--   conditions (Controller/Conditions), errors.IsNotFound and IsAlreadyExists, IsDNS1123Label,
--   sha256.Sum256, os.ReadFile, rand.Read, strconv.Itoa, strconv.Quote, the clock, encoding/json with
--   the limit of http.MaxBytesReader, the answers that http.ServeMux gives by itself, net.Listen
--   (NetworkLaws of Telemetry/Listeners/Released), the Prometheus registry (RegistryLaws of
--   Registry/Laws), url.Parse, the OpenTelemetry libraries, client.New and the manager of
--   controller-runtime. For the composition of the API and the operator, SharesCluster of EndToEnd says
--   that their clients see one cluster; for the commands, Serves of Commands/Served says that the
--   servers are run as ServeUntilShutdown does. Examples has an instance of each set of laws.
--
-- Not modelled: the writing of JSON, the text of log lines, trace contexts, how a signal ends a
-- context, the parsing of flags and the setup of the logger in cmd/main.go, the registration of types
-- with a scheme and the generated deep copies (api/v1alpha1), the tests and their utilities, and the
-- manifests. They are calls of libraries, generated code, helpers of tests, or no Go code.
pub mod Base
pub mod Text
pub mod Errors
pub mod Types
pub mod Controller
pub mod Examples
pub mod ControlPlaneApi
pub mod DemoHttp
pub mod Ports
pub mod Registry
pub mod Telemetry
pub mod Commands
pub mod EndToEnd
