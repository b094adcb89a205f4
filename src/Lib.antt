-- ===== src/Lib.antt =====
-- A distributed system that authorises fuel charges of company cards. A company is an account, with
-- a limit; each of its cards has a limit of its own. Stations send operations to the cluster's
-- leader; its node passes them to a router, which passes them to one actor per card and per account.
-- A card checks its own limit and asks its account, which checks the account's limit and replies; the
-- card then reports to the router, and the router to the node. Nodes and clients exchange messages in
-- a binary protocol.
--
-- Files:
--   Prelude, Prelude/     Booleans, lists and maps that the parts share; Prelude/Maps is a `HashMap`
--                         as an association list, where an insertion replaces.
--   Float, Float/         the `f32` of the amounts and limits as 32-bit patterns, with addition and
--                         comparison as IEEE 754 has them (round to nearest, ties to even).
--   Domain                common/src/operation.rs, operation_result.rs, errors.rs, node_role.rs and
--                         network/message.rs.
--   Actors/Messages       server/src/node/actors/messages.rs. An `Effect` is what a handler sends.
--   Actors/Account        server/src/node/actors/account.rs: `handle_account` is
--                         `Handler<AccountMsg>::handle`.
--   Actors/Account/Inputs   histories of an account.
--   Actors/Account/Limits, Replies, Queries, Overlaps   its limit; what a message does to a query; whole
--                         queries; two of them at once.
--   Actors/Card           server/src/node/actors/card.rs: `handle_card` is `Handler<CardMsg>::handle`,
--                         `handle_charge_reply` is `Handler<AccountChargeReply>::handle`.
--   Actors/Card/Inputs, Tasks, Fifo, Limits, Offline   histories of a card; its tasks; its order of
--                         answers; its limit; the charges of offline stations.
--   Actors/Router         server/src/node/actors/actor_router.rs: `handle_cmd` is
--                         `Handler<RouterCmd>::handle`; in Actors/Router/Replies `handle_internal` is
--                         `Handler<RouterInternalMsg>::handle`, where `none` is a panic.
--   Actors/Router/Snapshots   how the router puts a database snapshot together.
--   Actors/System         the actors of a node together: a `Step` is a command of the node or the
--                         delivery of any message under way, and events go through a channel
--                         of 128, which drops them when it is full; Actors/System/Panics is about panics.
--   Actors/Explained, */Reasons   refusals and their reasons.
--   Nodes/Effects         server/src/node/pending_operation.rs and utils.rs; what a handler does to the
--                         connection, the database and the station.
--   Nodes/Leader, Nodes/Leader/Members   server/src/node/leader.rs: one function per handler, with the
--                         name of the method.
--   Nodes/Leader/Acks, Requests, Elections   acks; requests and results; elections.
--   Nodes/Replica, Nodes/Replica/Members   server/src/node/replica.rs, likewise; `into_leader` and
--                         `into_replica` include `from_existing`.
--   Nodes/Replica/Log     runs of log messages.
--   Nodes/Elections       elections among leader and replicas.
--   Nodes/Promotions, Ids   a replica that takes over with an operation in its log.
--   Nodes/Loop            server/src/node/node.rs: the trait Node as a record of its methods, the
--                         default methods with their names, and the loop: a turn is an event
--                         and what the sockets do meanwhile (Outside), where `fault` is the error of
--                         the send or the reconnection that ends the handler.
--   Nodes/Loop/Roles      the two implementations of the trait and `run_node_runtime`.
--   Nodes/Loop/Handlers, Panics   what panics a handler, and what a node.
--   Nodes/Loop/Queues, Replays   the offline charges of a leader; when they reach the next leader.
--   Nodes/Joins           how a node joins a cluster.
--   Nodes/Requests        requests on their way from the leader into the log of a replica.
--   Nodes/Start           `Leader::start`, `Replica::start` and `run` of server/src/main.rs, once the
--                         database, the station and the connection have started.
--   Wire                  common/src/network/serials/. Wire/Bytes has the slices, big-endian numbers
--                         and UTF-8 of the standard library, Wire/Protocol the constants of
--                         protocol.rs, Wire/Serialize serialization/, Wire/Deserialize
--                         deserialization/, Wire/RoundTrip the properties.
--   Network/Frames        common/src/network/handler/sender.rs, receiver.rs and
--                         serials/handler_first_messages.rs: what is written on a stream, and what is
--                         read from it.
--   Network/Frames/Delivery, Limits   messages in order; long messages and first messages.
--   Network/Connection    common/src/network/connection.rs, acceptor.rs, active_helpers.rs: `send`,
--                         `disconnect`, `reconnect`, `accept` and the map of handlers.
--   Network/Connection/Active, Sends   the map; sends.
--   Network/Heartbeats    `Handler::run` of common/src/network/handler/handler.rs; Silence is about peers
--                         that do not reply.
--   Text, Text/           what command lines use of the strings of the standard library.
--   Station               common/src/station.rs: `handle_user_command` and `handle_node_event` on the two
--                         tables of pumps and requests.
--   Station/Simulator     the loop of `run_station_simulator`: a `step` is one event of its `select!`.
--   Station/Parsing, Draws   what `parse_command` reads; how a request id is drawn.
--   Station/Invariant, Board, Requests, Steps, Runs   the tables agree; the pumps as a map from pumps to
--                         open requests, and the steps on it.
--   Clients/NodeClient, Clients/NodeClient/Handlers   client/src/node_client/node_client.rs: one function
--                         per method, and the loop of `run`.
--   Clients/NodeClient/Charges, Replays, Responses   a charge of a pump; the replay of the queue; the
--                         responses of the cluster.
--   Clients/Link          a station and its client, joined by their two channels; Clients/Link/Places
--                         and Steps are about where a request is.
--   Clients/Administrator, Clients/Administrator/Session   client/src/administrator/administrator.rs and
--                         main.rs: commands and results; the dialogue.
--   Clients/Administrator/Operations, Requests, Reports   the operations; the requests of a session;
--                         what is reported.
--   */Tests               concrete runs.
--
-- An actor handles one message at a time, so a history of an actor is the list of the messages it
-- handles, and each handler a function from a state to the next one and what it sends, in the order
-- of sending. An actor that starts another sends `start_account` or `start_card`. The text of an
-- error or of a debug line is not modelled; a panic is a value. The address of an actor is its key.
--
-- `excess_bits` counts how often a sum can be halved with a fuel of 300: the largest sum of two finite
-- values is below 2^278, so the fuel is enough. Other recursion is structural.
--
-- Numbers are those of a debug build, which scripts/launch.sh runs, on a 64-bit machine: an overflow
-- panics, and a `usize` has eight bytes. `wrapping_add` wraps.
--
-- Whether a send to another node succeeds and the hash of an address, which the standard library
-- leaves open, are parameters of the nodes' handlers; a message to the node's own station arrives.
--
-- The sends of a client and the starts and tasks of a connection succeed or fail by parameters, too;
-- so do the parser of an `f32` and the random numbers that a station draws. The draws of a command are
-- a list: where it holds no free id, the loop is still drawing. A `HashSet` of ids is a list without
-- repetitions. In Clients/Link the station takes messages, and the cluster answers a charge with the
-- result of a charge.
--
-- Not modelled: the thread of actors behind the database handle (server/src/node/database.rs), the
-- arguments of the programs (server/src/main.rs, client/src/node_client/main.rs), and the sockets,
-- tasks and channels of the runtime under common/src/network/.
pub mod Prelude
pub mod Float
pub mod Domain
pub mod Text
pub mod Actors
pub mod Wire
pub mod Network
pub mod Nodes
pub mod Station
pub mod Clients
