-- ===== src/Lib.antt =====
-- The io package of wfc: components that pass messages from a source of data to a target, each behind the
-- interface `iinterface` (reg_io, unreg_io, perform_io). Paths are from the root of the repository.
--
-- The parts of the program, and the files that model them:
-- - Iface: what the components share: data pointers, weak pointers with the snapshot of the objects that
--   are there, the closures that become an `output_handler_t`, the calls that an operation makes of other
--   objects, and the faults that end one (a call through a null pointer, or of an empty function).
-- - Client: package/client/client_tcp. Client.Tcp is client_tcp.cpp, the component, with the list of the
--   sources that wait for its start; Client.Map is client_tcp_map.cpp, the clients of the sources and the
--   three pools that they come from and go to; Client.Adapter is client_tcp_adapter.cpp, one client with
--   the object that receives what comes in, with Client.Adapter.Performing for what it sends;
--   Client.Options is client_tcp_config.hpp. The component calls the map, and the map calls its clients.
--   Client.Map.Refinement is what the map promises to the sources, without its pools. Client.System is the
--   map with a store of adapters, which the events of the map drive, and Client.Tcp.Driving the component
--   over both. Client.Map.Dropping says which clients lose the last pointer to them, and
--   Client.System.Lifetime destroys their adapters. Client.Tcp.Component is the component with its adapters
--   under any history of requests of sources and of what wfc asks (options, starts, restarts, stops).
-- - Hub: package/hub/hub/hub.cpp, a message for all sources but the sender, and the target.
-- - Broker: package/broker/broker: broker.cpp, regex_match.cpp and broker_config.hpp, a message for the
--   target of the first rule that it matches.
-- - Queue: package/queue/queue/queue.cpp, requests and answers through the queues of workflows;
--   Queue.Ordering is a queue with the workflow of one thread that runs what it posts.
-- - Statistics: package/statistics/statistics/statistics.cpp, messages and answers that are measured.
-- - Tank: package/tank/tank/tank_io.cpp, tank_io.hpp and tank_options.hpp: Tank makes requests, Tank.Check
--   checks responses, Tank.Counters is the class __counter, Tank.Rounds is requests one after another.
-- - Server: package/server: Server.Tcp is server_tcp.cpp, Server.Connection is tcp_connection.hpp, Server.Udp
--   is server_udp.cpp, Server.Lives the life of an object that has a server at a time, which both fill in.
-- - Proxy: server_tcp in front of client_tcp, as a process that forwards what its connections send and
--   sends back what its servers answer. The target of the server is a `winterface` of wfc, an argument, which
--   asks client_tcp. The connections register with the target, or are in direct mode (Proxy.Directly).
-- - Pipeline: components behind one another, each the target of the one before.
-- - Json: package/*/*/*_json.hpp, which names of a JSON object stand for which options.
-- - Package: package/io_package.cpp, package/*/*_module.cpp and package/*/*/*_multiton.cpp, what the package
--   registers with wfc.
-- - Stat: what client_tcp.cpp and server_tcp.cpp both have, the meters of a set of connections and the
--   separators. Workflow: the timers of a workflow of wflow.
-- - Prelude: Boolean tests, lists and their sums, integers, and a sorted association list for std::map.
--
-- How the code is rendered: an object is a record of its fields, and an operation is a function from the
-- state to the new state and the list of the events that it causes, in their order: calls of other objects
-- and handlers, starts and stops of clients and servers, what is posted and what is logged. An operation
-- that can fail on a null pointer or an empty function returns a result. A closure is what it captures, and
-- a function says what a call of it does. Objects are numbers, in the order of their creation where the
-- package creates them; 0 is the null client in Client.Map. Which objects are still there when a weak
-- pointer is locked is an argument. One operation runs at a time, which the mutexes are for; Client.Map.Race
-- takes apart upsert_ and unreg_io, which leave the mutex of the map between two critical sections, and
-- reg_io, which tests the flag of stop under no lock. An adapter is there while its closures run, and
-- outside of Client.System.Lifetime it stays in its store when the map has let it go. The order in which the
-- unordered_map of a hub is walked is that of the keys, and Hub.Unordered is about any other. A name in the
-- options that stands for an object is looked up by an argument.
--
-- Arguments stand for what is not in the repository: boost's regular expressions and the lookup of targets
-- (Broker.Env), what a TCP client sends (Client.Adapter.Performing.Wire), the JSON-RPC and vars libraries
-- (Tank.Env), whether an identifier is tracked and a posted function runs or is dropped (Queue), a
-- workflow that runs what is posted to it in its order (Queue.Ordering.Fifo), the `winterface` between a
-- server and its target (Proxy.Front), the operator that adds up statistics (Client.Map.get_stat), whether
-- the start of a client or server throws.
--
-- Numbers: sizes and identifiers are natural numbers; the identifier of a JSON-RPC call has 32 bits and wraps
-- around, and a counter of type long has 64 bits, with no result on overflow.
--
-- Fuel: the loops that fill a pool have one unit for each client that the options ask for, which
-- Client.Map.Fill.fill_lem shows to be what they need; the loop over the responses of a message has one unit
-- more than the message has bytes.
--
-- Not modelled: the class tcp_acceptor, which has nothing of its own; how JSON is read and written by the
-- member lists, which is wjson's, and the lists of the base classes; the libraries' connections, sockets
-- and acceptors, whose functions are called; text that is logged, beyond that something is.
mod Prelude
pub mod Iface
pub mod Stat
pub mod Client
pub mod Hub
pub mod Broker
pub mod Workflow
pub mod Queue
pub mod Statistics
pub mod Tank
pub mod Server
pub mod Pipeline
pub mod Proxy
pub mod Json
pub mod Package
