-- ===== src/Lib.antt =====
-- cbdynclusterd hands out clusters of Couchbase servers that run in Docker containers: a daemon with
-- an HTTP interface creates them, keeps who owns each and when it expires, and ends them. This
-- library models the daemon's code and states what it does.
--
-- How the parts work together. A cluster is not stored: it is the containers that carry its label
-- (daemon/clusters.go groups Docker's list by the label `com.couchbase.dyncluster.cluster_id`). What
-- is stored is its owner and expiry, in a badger data base (daemon/metadata.go). The handlers of
-- daemon/restserver.go make a context out of a request (daemon/context.go) and call allocateCluster,
-- refreshCluster and killCluster; cleanupClusters of daemon/daemon.go ends what has expired. The
-- containers run an image that daemon/images.go pulls or builds for a version that
-- daemon/nodes.go parses. The servers inside are configured by REST calls (cluster/node.go) through
-- helper/helper.go; SetupCluster of daemon/setup.go makes one Couchbase cluster of them, with the
-- manager of cluster/manager.go.
--
-- Which file models which part:
--   Prelude      lists, Go's int, strings and errors; `Exec` is code that changes a state, `Join`
--                the goroutines that send their errors on a channel, and the loop that receives them,
--                `Await` the same with a timeout, `Run` code that may not return, `Keeps` invariants
--   Time         time.Time and time.Duration, daemon/constants.go
--   Meta         daemon/metadata.go: CreateClusterMeta is create_cluster_meta, and so on; the data
--                base and the encodings are the parameter `Storage`
--   Context      daemon/context.go
--   Docker       what is used of the Docker client: a parameter
--   Clusters     getAllClusters and getCluster of daemon/clusters.go; Clusters/Order has the listing as a
--                collection without an order, a quotient of lists
--   Kill         killNode, killCluster, killAllClusters, cleanupClusters; in Kill/Race a cleanup during
--                which a handler runs, in Kill/Pool the goroutines step by step, also when calls fail
--   Refresh      refreshCluster
--   Version      daemon/nodes.go: versions, aliases, and the names and URLs made of them; what an alias
--                becomes is in Version/Aliases
--   Images       daemon/images.go, checkBuildExists, ensureImageExists
--   Allocate     allocateCluster and allocateNode
--   Rest         Cred, RestCall, GetResponse and RestRetryer of helper/helper.go; the network is the
--                parameter `Net`
--   Workload     LoadData, the operations on a document and the workloads of helper/helper.go; the
--                Couchbase client is the parameter `Client`
--   Escape       net/url's QueryEscape, as cluster/node.go uses it
--   Server       the REST calls of cluster/node.go, cluster/bucket.go, cluster/collection.go
--   Poll         the loops that ask a server until it is ready, in general
--   Json         values that encoding/json decodes without a type
--   Ssh          the commands that cluster/node.go runs over SSH; in Ssh/Laws what the loop over
--                /etc/os-release finds
--   Scp          copying files to and from a node, in cluster/node.go
--   Peer         Update, Membership, Rebalance, GetBuckets, restCallToAux of cluster/node.go; in
--                Peer/Polling its loops that wait, in Peer/Ready when WaitForBucketReady returns
--   Manager      cluster/manager.go; its operations on a cluster are in Manager/Actions, what waits,
--                up to StartCluster, in Manager/Setup, how nodes join in Manager/Joining; Manager/Spec is the
--                file of nodes
--   Setup        daemon/setup.go, addSampleBucket, HttpSetupCluster, HttpAddSampleBucket
--   Install      cluster/install.go
--   Certs        daemon/certauth.go, SetupCert, HttpSetupClientCertAuth
--   Alias        daemon/alias.go: GetConfigRepo is get_config_repo, and what HttpCreateCluster gets of it
--                refreshed_products
--   Start        daemon/daemon.go: configuration, the checks at the start, a round of the cleanup
--   Lifecycle    startDaemon of daemon/daemon.go: its goroutines and channels, from openMeta to
--                the end
--   System       the running daemon as a step relation, and what holds in every state it reaches
--   WireJson     the JSON forms of daemon/restserver.go
--   Requests     what its handlers read and build before they act
--   Handlers     the handlers, with addBucket (daemon/buckets.go) and addCollection
--                (daemon/collections.go)
--   Tests        concrete instances of the parameters, and the theorems applied to them
--
-- The state is `Daemon`: the data base, the Docker engine, and the host names that were
-- registered. A function that returns (value, error) gives a `Result`, in which a panic is a third
-- outcome; one that changes the state is an `Exec`, and its state comes back beside an error too.
-- What Go leaves open is an argument: the order of a range over a map, the order in which
-- goroutines act and in which their errors arrive (`Choices`, `Schedule`). A goroutine's job is
-- one step: the steps of two jobs do not interleave, but for Kill/Race, Kill/Pool and Lifecycle. The
-- time is an argument, counted in nanoseconds from the year 1; the store keeps whole seconds, for the
-- years 1 to 9999. Go's int and int64 do not overflow where the code uses them, and are integers
-- here. RestRetryer's number of attempts is the code's. A loop that asks a server until it is
-- ready has no bound in the code: its model `poll`, and that of a workload, is given a number of
-- rounds and has no result when they are used up, and `Poll.Laws.poll_iff` compares it with the
-- loop without a bound. The nodes of a manager are objects that several lists share: they stand in
-- one list, and a pointer is an index into it.
--
-- Suppositions on the parameters are records: `Meta.Laws.IsStorage` (what is set is got, decoding
-- undoes encoding), `Kill.Effect.IsDocker` (a container that is stopped leaves the list, for it is
-- created with AutoRemove: one that was never started, or that Docker removes only later, is not
-- covered; the first 12 characters of an ID name it), `Kill.Pool.Spared.IsContained` (a stop that
-- fails ends no other container), `IsSchedule` and `IsChoices` (the orders are permutations),
-- `Prelude.Await.IsWaiting` (what arrives without a timeout is what was sent),
-- `Workload.Laws.IsBucket` (a bucket keeps what is written to it, and its cluster answers),
-- `Start.Laws.IsSettings` (viper finds in a file the texts that were written to it). Lifecycle
-- supposes that a round of the cleanup returns. The tests have an instance of each.
--
-- Not modelled: the registration of flags, openMeta, connectDocker and the HTTP server of
-- daemon/daemon.go, HttpRoot, Usage, StartServer, which does nothing, and main.go: they only hand
-- work to libraries or print a text. Log lines, and the waits between attempts, are left out.

pub mod Prelude
pub mod Time
pub mod Meta
pub mod Context
pub mod Docker
pub mod Version
pub mod Clusters
pub mod Kill
pub mod Refresh
pub mod Images
pub mod Allocate
pub mod Rest
pub mod Workload
pub mod Poll
pub mod Json
pub mod Escape
pub mod Server
pub mod Ssh
pub mod Scp
pub mod Peer
pub mod Manager
pub mod Setup
pub mod Install
pub mod Certs
pub mod Start
pub mod Lifecycle
pub mod Alias
pub mod System
pub mod WireJson
pub mod Requests
pub mod Handlers
pub mod Tests
