-- ===== src/Lib.antt =====
-- A model of the Istio service broker: the configuration it reads from custom resources of Kubernetes,
-- and the catalog of the Open Service Broker API that it serves.
--
-- A catalog request runs through every part. The controller asks the broker store for the service
-- classes and, for each class, for its plans; the broker store lists the objects of one type in a
-- store; the store is the Kubernetes client, which asks the server for objects, converts them by the
-- schema of their type, and the controller makes services and plans of what it gets.
--
-- The files, and the code they model:
-- Prelude: texts as lists of bytes, the ways a call ends (a value, an error, a panic), maps as lists
--   of keys and values, calls that work on a world outside, and the order of a visit of a map.
-- Proto: the generated messages of istio.io/api/broker/v1/config, a parameter.
-- Config.Resource: Meta and Entry of pkg/model/config/resource.go, and JSONConfig of schema.go.
-- Config.Label, Config.Schema, Config.Descriptor: pkg/model/config/schema.go, that is the test of a
--   label (isDNS1123Label) with the regular expression matched by derivatives, the conversions and
--   the validation of a schema (Schema.toJSON, ToJSONMap, FromJSONMap, Validate and the others under
--   the same names in snake case), and the operations on groups of schemas (GetByType, FromJSON,
--   FromYAML, ToYAML).
-- Config.Codec: golang/protobuf, encoding/json, ghodss/yaml and yaml.v2, a parameter, with the laws of
--   their round trips that some theorems take as a hypothesis. jsonpb may panic at a message, as it
--   does at some nil ones; reading a message into one that was made does not.
-- Config.Store, Config.BrokerStore: pkg/model/config/store.go, that is the interface Store as a record
--   of operations, Key, and the broker store (ServiceClasses, ServicePlans, ServicePlansByService).
-- Osb, Osb.Records: the types of pkg/model/osb and their constructors.
-- Crd.Names, Crd.Conversion: pkg/platform/kube/crd/conversion.go, and resourceNames of client.go.
-- Crd.Objects: the object wrapper of pkg/platform/kube/crd/template.go, and the table of known types
--   that pkg/platform/kube/crd/generate.sh writes. Crd.Objects.Sharing: DeepCopyInto and DeepCopy with
--   pointers on a heap.
-- Crd.Client: the operations of pkg/platform/kube/crd/client.go (Get, Create, Update, Delete, List,
--   the first loop of NewClient) over the REST client of Kubernetes, a record of requests.
-- Crd.Registration: RegisterResources and DeregisterResources of client.go, over the API extensions and
--   wait.Poll, a parameter.
-- Crd.Connection: resolveConfig, CreateRESTConfig and NewClient of client.go, over the calls of os and
--   client-go that they make, a parameter.
-- Crd.Api: what the API of Kubernetes documents of custom resources, as laws of the REST client; any
--   request may fail.
-- Crd.Cluster: what the interface Store of store.go promises of Create, Update, Delete and Get, as
--   relations between maps of entries; the map that the client of client.go shows, its calls in
--   sequence, its listings, and in Crd.Cluster.Available its writes where the server is available, that
--   is where each request for one object that it can carry out is answered with no error.
-- Controller: pkg/controller/controller.go, that is catalog, with Catalog and CreateController in
--   Controller.Handler and writeResponse in Controller.Response. Controller.Offer: what a catalog
--   of a list of objects is. Controller.Unordered: catalogs without their order.
--   Controller.Cluster, Controller.Served and Controller.Offered: the controller over the client of
--   client.go.
-- Server: CreateServer and Start of pkg/server/broker.go, which put the parts together and serve;
--   Server.Address: the address of Start.
-- Version: pkg/version/version.go.
-- Commands, Commands.Brks, Commands.Brkcol: cmd/shared/print.go, cmd/brks and cmd/brkcol.
--   Commands.Shell: processes that may exit. Commands.Cobra: what cobra documents of Execute, as laws.
-- Testing.Pods, Testing.Retries, Testing.Files: pkg/testing/util/kubernetes.go and file.go.
-- Mock: FakeConfig, Make and Compare of pkg/testing/mock/config.go, over the generated messages and
--   reflect.DeepEqual, a parameter. Mock.Checks: its checks of a store, CheckMapInvariant in
--   Mock.Checks.Map, with faulty stores in Mock.Checks.Map.Faults, and
--   CheckBrokerConfigTypes in Mock.Checks.Broker, with what they report.
-- Tests: runs at concrete inputs, with small instances of the parameters.
--
-- State and bounds. A world `W`, whatever the libraries and the server keep, is passed through every
-- call. Loops are structural recursions on the lists that the source ranges over; the wait of
-- GetAppPods runs on a fuel of 92, the decimal digits of a port are made on a fuel of 5, and those of
-- the number of a fake entry on one more than the number, each of which a theorem shows to be enough.
-- No number of the code modelled here can overflow: lengths are compared with 63, ports and the numbers
-- of fake entries are only counted up and printed, and statuses are constants. strings.Title is
-- modelled on ASCII text, and Fprintf on formats with no arguments and with no width, precision,
-- argument index or verb `!`; elsewhere it gives nothing.
--
-- Not modelled: log lines; the router that pkg/server starts and cobra, which are parameters; the
-- arguments of Errorf in the checks of pkg/testing/mock; and the builds. Objects are values, but for
-- Crd.Objects.Sharing, where an object and its copy hold pointers to a spec map.
pub mod Prelude
pub mod Proto
pub mod Config
pub mod Version
pub mod Commands
pub mod Osb
pub mod Controller
pub mod Crd
pub mod Server
pub mod Testing
pub mod Mock
mod Tests
