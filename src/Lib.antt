-- ===== src/Lib.antt =====
-- gnmi-gateway: a gateway that subscribes to gNMI targets once and serves what they report to many
-- clients, alone or as a cluster of gateways that share the targets through Zookeeper. This library
-- models the gateway's own logic in gateway/ and proves properties of it.
--
-- How the parts interact. A loader (gateway/loaders) reads which targets there are and sends control
-- messages to the connection manager (gateway/connections/zookeeper.go), which starts, reconnects and
-- stops connections. A connection (gateway/connections/state.go) waits for one of a limited number of
-- slots and, in a cluster, for the lock of its target (gateway/locking), then subscribes; its
-- callbacks filter the notifications and put them in the cache. The server (gateway/server/server.go)
-- answers Subscribe from the cache. The members of a cluster find each other through Zookeeper
-- (gateway/clustering), are loaded as targets by the cluster loader, and are sent only what a gateway
-- holds itself, which the manager's Forwardable decides. The gateway (gateway/gateway.go) passes
-- updates on to the server and the exporters.
--
-- Files.
--   Prelude         shared names: Boolean tests on the native numbers, lists, Go strings as lists of
--                   bytes (Prelude/Strings), Go's int (Prelude/Int), Go maps as association lists
--                   (Prelude/Maps), sort.Strings (Prelude/Sort).
--   Proto           the messages of gNMI and of the target configuration, as the code reads them.
--   Zookeeper       the Zookeeper client as a record of its calls, and createPath.
--   Clustering      gateway/clustering/zookeeper.go: register, member_list and the rounds of the watch
--                   (watch_round, watch_step, watch_run) of Register, MemberList, MemberListCallback.
--   Locking/Locker  gateway/locking/locker.go: DistributedLocker as a record, and what its clients rely on.
--   Locking/Local   gateway/locking/local.go: try, unlock, get_member over the shared registry.
--   Locking/Zookeeper
--                   gateway/locking/zookeeper.go: try_lock for Try, with try_inner, try_answered,
--                   try_again and try_node for the parts of try; unlock, get_member, lowest_seq_child,
--                   watch_state.
--   Connections/Match
--                   rejectUpdate and matchPath of gateway/connections/state.go.
--   Connections/Counting
--                   handleCacheError and the errors of updateTargetCache of the same file.
--   Connections/State
--                   ConnectionState of the same file: equal, handle_update, sync_state, disconnected and
--                   the handling of cache errors, over a cache that is a parameter.
--   Connections/Loop
--                   the loops connect and connectWithLock of the same file as steps of several loops
--                   that share the slots, and the query of doConnect; Connections/Loop/Locked for the
--                   calls of their locks.
--   Connections/Manager
--                   gateway/connections/zookeeper.go: handle_target_control_msg, forwardable, unlock_all
--                   for the event listener; what is set going is a list of effects, and none is the
--                   panic of a call on a client that is nil. make_clients is what doConnect sets.
--   Loaders         gateway/loaders: the watching loop that three loaders share; Loaders/Json,
--                   Loaders/Simple, Loaders/Netbox and Loaders/Cluster for the loaders of these names;
--                   Loaders/Registry for the registry of loader.go.
--   Server          gateway/server/server.go: subscribe for Subscribe; Server/Process for
--                   processSubscription and polling; Server/Stream for sendStreamingResults;
--                   Server/Streaming for a subscription in mode STREAM, whose registration, walk of the
--                   cache, updates and sender interleave; Server/Once for a whole call in mode ONCE;
--                   Server/Matching for addSubscription and Update, in which a slice with spare capacity
--                   has cells that its appends share.
--   Utils           gateway/utils/utils.go: path_to_xpath, the pretty printers, get_number_values.
--   Openconfig      gateway/openconfig/types.go: get_type_by_path and load_roots, over trees of entries;
--                   Openconfig/Loading for LoadAllModules.
--   Exporters/Delta gateway/exporters/prometheus/delta.go: calc for Calc; Exporters/Labels for
--                   NewStringMapHash and UpdateToMetricNameAndLabels; Exporters/Prometheus for Export.
--                   Exporters/Prometheus/Serving for Start and runHttpServer.
--   Exporters/Influxdb, Exporters/Kafka
--                   gateway/exporters/influxdb/influxdb.go and gateway/exporters/kafka/kafka.go: what
--                   Export hands to the client library, and the checks of Start.
--   Stats           gateway/stats/spectator.go: the registry of meters and start_spectator.
--   Configuration   gateway/configuration/config.go: populate for PopulateGatewayConfigFromFile.
--   Gateway         sendUpdateToClients and zookeeperEventHandler of gateway/gateway.go, and cleanSplit
--                   of gateway/main.go; Gateway/Start: start_gateway for StartGateway with its parts
--                   start_cluster, start_manager, start_server and start_clients, and get_local_ip;
--                   Gateway/Serving: start_gnmi_server for StartGNMIServer, with AddClient and NewServer;
--                   Gateway/Tasks: the goroutines of StartGateway and the first error that it receives;
--                   Gateway/Main: main for Main and setup_debugging for SetupDebugging of gateway/main.go;
--                   Gateway/Args: parse_args for ParseArgs of gateway/main.go.
--   Below these, a module is named for what it proves; the modules named Examples hold concrete runs.
--
-- Conventions. A pointer that may be nil is an Option, a map is an association list, and a theorem for
-- every such list covers every order in which Go may visit the map. A method takes the state and
-- returns it. A call that holds its mutex throughout is one step, and an interleaving is a list of
-- steps. An error is a value; a panic is an outcome of its own. Numbers are natural numbers or, for
-- Go's int, the integers of Prelude/Int. Two places meet the bounds of an int64: strconv.Atoi, whose
-- bounds atoi keeps, and the product of durations in gateway/configuration, which wraps around. A
-- float64 is an abstract type with the operations that the exporters use. Loops over lists are
-- recursion on the list, and loops that wait for something outside the program run over the list of
-- its answers, so no fuel is needed except in itoa, whose twenty rounds are enough for the digits of a
-- 64-bit number.
--
-- Not modelled. Third-party code is a parameter: the cache, path and match packages and the client of
-- openconfig/gnmi, xpath, the YAML and JSON parsers, envconfig, target.Validate, the Zookeeper client,
-- the NetBox client; so are hashing, marshalling and goyang's reading of models. The coalescing queue
-- is a record of its calls in Server/Streaming and Server/Once, and of the spectator library the
-- registry is a list of its meters. Logging has no effect on the rest and is left out, and so are the
-- calls that count statistics, except in Stats. Of the server, the timer of a send and the limit of
-- concurrent subscriptions are left out. The exporters end where they call the clients of Prometheus,
-- InfluxDB and Kafka, and the registries of exporters and the exporter to the log hold no logic. What
-- the gRPC server does with a connection and the fields of the configuration that are only handed on
-- are left out.
pub mod Prelude
pub mod Proto
pub mod Zookeeper
pub mod Clustering
pub mod Locking
pub mod Connections
pub mod Loaders
pub mod Server
pub mod Utils
pub mod Openconfig
pub mod Exporters
pub mod Configuration
pub mod Stats
pub mod Gateway
