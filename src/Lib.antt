-- ===== src/Lib.antt =====
-- The environment operator: a process that keeps the Kubernetes objects of one namespace as a
-- configuration file in a git repository asks for. It loads the file into a list of services
-- (pkg/bitesize), reads the deployed services back from the cluster, compares the two (pkg/diff),
-- applies each service that has changed (pkg/cluster, with the objects of pkg/translator, through the
-- clients of pkg/util/k8s), and deletes what the file no longer names (pkg/reaper).
--
-- The files and the code they are about:
--   * Prelude and its children: Go strings as lists of bytes with their equality, order, Split and
--     Join; maps with string keys as association lists; signed integers and their texts; results with
--     an error; sorting by a key.
--   * Bitesize/Types, Zero, Gists: the configuration types of pkg/bitesize/config.go, service.go,
--     gist.go and environment.go, field by field, and their zero values.
--   * Bitesize/Colour, BlueGreen: pkg/bitesize/bluegreen.go (BlueGreenDeploymentID, String,
--     UnmarshalYAML, BlueGreenURLForKind, copyBlueGreenService).
--   * Bitesize/Service, Volumes: the methods of Service and Volume of pkg/bitesize/service.go, and
--     SortVolumesByVolName of pkg/bitesize/environment.go.
--   * Bitesize/Autoscaling, Quantities: the checks of pkg/bitesize/validation.go.
--   * Bitesize/Unmarshal: the UnmarshalYAML methods of pkg/bitesize/service.go with their helpers.
--   * Bitesize/Loading: loadServices and, in Environments and Sources, LoadEnvironment and
--     LoadEnvironmentFromConfig of pkg/bitesize/environment.go, with the UnmarshalYAML methods of it and of config.go.
--   * Diff/Align, Compare: alignServices and Compare of pkg/diff/compare.go, with the change map of
--     pkg/diff/servicechange.go passed on explicitly.
--   * Cluster/Deploy: ApplyService and createExternalSecret of pkg/cluster/cluster.go.
--   * Cluster/Apply: ApplyIfChanged, ApplyEnvironment and shouldDeployOnChange of the same file,
--     over the comparison of Diff/Compare and over a parameter that applies one service.
--   * Cluster/Scrape: ServiceMap of pkg/cluster/service_map.go, the functions of
--     pkg/cluster/helpers.go, and ScrapeResourcesForNamespace of pkg/cluster/cluster.go, over the
--     fragments of the Kubernetes objects that the code reads. Separate and Listings are about the
--     objects of one service among all that are listed.
--   * Extensions: the custom resources of pkg/k8_extensions/types.go.
--   * Translator: KubeMapper of pkg/translator/kubemapper.go, its objects with the fields that it
--     sets, and the image names of pkg/util/util.go. Deployed, Autoscalers, Claims, Routed,
--     Variables and Probes read the objects back with Cluster/Scrape; Settled and Resting compare
--     with Diff/Compare what was read of a plain service, in its children what was read of one with
--     external URLs or with an autoscaler; Environments is about the listed objects of a whole
--     environment; Mapped composes the objects with Cluster/Deploy,
--     and Owned says what they have in common.
--   * Bitesize/Imports: LoadResource of pkg/bitesize/gist.go, and the generator of
--     pkg/util/configmap_generator.go.
--   * Cluster/Scrape/Imported: pkg/cluster/gist_map.go, the rest of ScrapeResourcesForNamespace, and
--     LoadPods.
--   * Web: authentication and postDeploy of pkg/web; in Access NewAuthClient and Auth, in Statuses the
--     three status handlers.
--   * Git: Client, EnvGitClient, the authentication, Pull, UpdatesExist and Refresh of pkg/git.
--   * Reaper: Cleanup of pkg/reaper/reaper.go and what it calls; Exact describes what it is to leave.
--   * Operator: one round of the loop of cmd/operator/main.go; in Loop main, for a number of rounds; in
--     Start its init, with pkg/config/config.go. Settled and Deployed are about a cluster that runs
--     what is configured.
--   * Helpers: EqualArrays of pkg/util/util.go.
--   * K8s: the clients of pkg/util/k8s, one file each (Custom for crd.go, Pod also for
--     namespace.go, Client for k8s.go), over the requests of an API server.
--   * Tests: the theorems at concrete inputs.
--
-- Nil and empty: the comparison prints an empty slice and leaves out a nil one, so a service says, in
-- `empties`, which of its empty slices and maps are not nil (Bitesize/Types); reading, unmarshalling,
-- copying and aligning a service set it as the code does. An environment says whether its services
-- are nil (Bitesize/Gists), which the reaper refuses.
--
-- How state is modelled: the cluster is a state that each step takes and returns. A panic is `none`,
-- and the end of the process by log.Fatalf is a constructor. Errors are texts. Where the code writes
-- through a pointer that a copy of a service shares with its environment (the deployment settings,
-- the probes, the annotations), the comparison returns the services that were written to, and these
-- are the ones applied afterwards.
--
-- Parameters, with what is assumed of them where it is assumed: the pretty-printed difference, the
-- parsing of quantities and the external secrets of the cluster (Diff/Tools); the clients that
-- apply a service (Cluster/Deploy); the clients that delete (Reaper); the requests of the API
-- server (K8s/Api); the environment of the process, the secrets of the cluster and the parsing of
-- quantities (Translator/Objects); what the YAML library and the validator return for a document
-- (Bitesize/Unmarshal); the files of imported resources (Bitesize/Imports); the configuration and
-- the token library (Web); the git library (Git), with the disk (Git/Repository); the requests for
-- pods and the making of connections (K8s/Pod, Client). No loop needs fuel: each recurses on a
-- list, or prints a number with as many digits as the number itself; the endless loop of main is
-- taken for any number of rounds (Operator/Loop).
--
-- Bounds: an int or int32 is an integer; the modelled code compares and copies them and never
-- computes with them. Where it converts an int to an int32 or a uint32 the last 32 bits are taken,
-- and strconv.Atoi ends at the bounds of an int64 (Prelude/Numbers). Strings are bytes, with the case
-- functions on ASCII.
--
-- Not modelled: the libraries that connect to the cluster, read files and the process's environment
-- and parse YAML (all parameters), routing and the encoding of requests and responses, the metrics,
-- and serving beside the loop. Of logging only the errors of a round are kept (Operator).
pub mod Prelude
pub mod Bitesize
pub mod Diff
pub mod Cluster
pub mod Reaper
pub mod K8s
pub mod Extensions
pub mod Translator
pub mod Git
pub mod Web
pub mod Operator
pub mod Helpers
pub mod Tests
