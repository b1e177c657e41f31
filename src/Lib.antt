-- ===== src/Lib.antt =====
-- csi-gcs: a driver of the Container Storage Interface for Google Cloud Storage, which mounts buckets
-- with gcsfuse.
--
-- The parts of the program and the files that model them:
--   Flags          pkg/flags/flags.go. Names has the constants; Switches has IsFlag,
--                  FlagNameFromAnnotation, IsOwnAnnotation, IsAnnotation, FlagNameFromMountOption,
--                  IsMountOption and FlagNameToGcsfuseOption; Merge has MergeFlags, MergeSecret and
--                  MergeAnnotations; MountOptions has MergeMountOptions, over FlagSet, Go's package
--                  flag, and its child Given the meaning of the mount options as tables; Gcsfuse has MaybeAddFlag, MaybeAddBooleanFlag, MaybeAddDirectFlag and
--                  ExtraFlags.
--   Util           pkg/util/common.go. BucketName has BucketName, over Crc (hash/crc32); Capacity has
--                  BucketCapacity, SetBucketCapacity and BucketExists; Keys has CreateFile, CreateDir,
--                  GetKey and CleanupKey; Cluster has GetPvcAnnotations, DeletePod,
--                  GetRegisteredMounts, RegisterMount and UnregisterMount; Endpoint has ParseEndpoint.
--                  Limits has the sizes of the names that are made up.
--   Driver         pkg/driver. Types has the driver and the parts of CSI's messages that it reads;
--                  Client has the storage client that every handler of the controller makes first;
--                  Controller (controller.go), Node (node.go) and Identity (identity.go) have the
--                  handlers; Cleanup has RunPodCleanup, Server has Run and stop of driver.go, and
--                  Version has version.go. What holds of the controller is in Controller's Create,
--                  Expand, Options, KeyFiles, Validate, Claims and Succeeds, what holds of the node in
--                  Node's Mounts, Records, Retry and Succeeds, what the cleanup does to the pods in
--                  Cleanup.Pods and Cleanup.Spared, how Run ends in Server.Laws, and what is
--                  rejected at once in Rejects. Volumes has the service that the controller
--                  promises, as a step relation on the volumes, the refinement of it by the
--                  handlers, and what follows for sequences of requests.
--   Main           cmd/main.go. CommandLine has Go's package flag for one command line; Flags has the
--                  command's flags and setEnvVarFlags; Start has main.
--   Api            pkg/apis/published-volume/v1beta1: types.go; Register has register.go; DeepCopy has
--                  zz_generated.deepcopy.go over a store of maps and slices, with what holds of a
--                  copy in its children.
--   Clientset      pkg/client/clientset/clientset. Request has the requests of client-go's rest
--                  package; PublishedVolumes has typed/published-volume/v1beta1/publishedvolume.go,
--                  one request for each operation; Typed (published-volume_client.go) and Config
--                  (clientset.go) make the clients for a config. Server states what is relied on of
--                  the API server, with a small server in Server.Model. Connect puts the client set
--                  behind the calls of common.go, Server.Registry is about the registry of
--                  World.Registry on it, and Server.Updates about what is read back; Mounts has the
--                  node and the cleanup of the driver on it. Fake is the client set for tests: the
--                  fakes of the typed clients, Fake.Simple (clientset_generated.go and register.go
--                  of fake), and the same registry over an object tracker.
--   World          The code outside the repository, a record with one field for each call: Cloud
--                  Storage, the Kubernetes API, the mounter, the files. World.Laws (buckets),
--                  Atomic (a bucket changes as a whole), Mounts (the mounter), KeyFiles (files),
--                  Registry (records and pods) and Up (a day on which all calls are answered) state
--                  what the driver relies on of them. World.Laws.Model, with what holds of it in
--                  its children, and World.Laws.Answering are small sites where that holds.
--   Go, Strconv    Go's errors and calls in a row, package path, and package strconv.
--   Base           Lists, texts, maps and integers.
--
-- A handler is a function of a request into a change of the state of the outside world with a result
-- or an error (Go.M). The controller and the node meet in two places: the context of a volume, which
-- CreateVolume fills with the options and NodePublishVolume merges over its own, and the buckets. The
-- node and the next start of the driver meet in the records of mounts, which NodePublishVolume makes
-- and RunPodCleanup reads. The handlers use the records through World and World.Registry; the client
-- set (Clientset.Connect) and its fake (Clientset.Fake.Tracker) can be put behind it.
-- A Go map is an association list in the order of a range loop; what is stated of a map is stated of
-- its lookups, for every order. An int64 is an integer, with its bounds as a condition where it is
-- printed or read. Recursion is on the structure of lists and texts, and the digits of a number are
-- printed in 64 rounds, enough for 64 bits in any base.
--
-- The command reads its flags and starts the driver's Run, which cleans up, listens and serves; the
-- listener, the server of grpc, the flags of klog and what the build says of itself are parameters.
--
-- A deep copy and its original are told apart by the addresses of what they refer to; the metadata of
-- Kubernetes and its deep copies are parameters, as are client-go, its test package and the schemes.
--
-- Not modelled: the logs and the usage texts of the flags; how the requests of the client set are sent
-- and encoded, which is client-go's.
pub mod Base
pub mod Clientset
pub mod Strconv
pub mod Go
pub mod Api
pub mod World
pub mod Util
pub mod Driver
pub mod Flags
pub mod Main
