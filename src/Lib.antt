-- ===== src/Lib.antt =====
-- Ali-middleware: the agents that stand between a consumer and its dubbo providers. The consumer
-- agent takes HTTP requests, picks a provider agent by weighted round robin and sends it the
-- arguments over a pooled connection; the provider agent calls its dubbo server, over pooled
-- connections too; etcd holds the list of provider agents.
--
-- TraceableList models lib/traceable_list.hpp. Nodes live at addresses of a heap that the state
-- carries, `new` returns addresses that were not used before, reading through null or at an
-- address with no node is a fault. Each method is a command over that state with the method's
-- name; `of_data` is the iterator's constructor from a pointer to the data, `destroy` the
-- destructor. The loops of pop_some and of the destructor run on fuel one above the list's size,
-- which is enough. TraceableList/Deque has runs of the operations at the two ends, beside a
-- sequence of values.
--
-- Event models lib/boost_asio_event.hpp over boost's deadline timer, a parameter.
--
-- Pool models lib/pool.hpp. `Objects` is what both pools have, the buffer and the free list, and
-- `do_try_borrow_one`, `give_back` (release_one under its lock) and `fill_full` are commands over
-- it; the jump back in do_try_borrow_one is taken at most once, so two rounds are enough. The
-- object's constructor is an argument, since it can throw. Pool/Coro has the coroutine pool and
-- Pool/Threaded the threaded one, as relations whose steps are what runs under one lock.
--
-- Pool/Semaphore puts clients on top, who keep what they borrow and give it back.
--
-- Selector models src/provider_selector.hpp: the constructor, given what etcd answers, and
-- query_once. A pointer to a provider is its index. `curr` is a static variable of query_once, so
-- the model stands for the one selector that a consumer agent has. The loop of query_once runs as
-- often as the queue is long, which is its bound in the source too. String splitting and
-- conversion are rlib's and come in as a record (Common/Rlib) of functions and the laws they are
-- used by; Common/ExampleRlib has functions with these laws. Filling a provider's connection pool
-- is an argument.
--
-- Payload models http_payload_to_dubbo_parameters of src/provider_selector.hpp, the parser that
-- turns the body of an HTTP request into the four arguments of a call.
--
-- Consumer models src/consumer_agent.cc and async_request of src/provider_selector.hpp:
-- handle_request over Selector, where `Network` is what the connection does to one call and the
-- log of the state has the borrowing, the sending and the release in order; in Consumer/Session
-- do_session, over what its reads give; in Consumer/Startup the constructor; in Consumer/Listen
-- do_listen, over what its accepts give, and the threads of listen. Consumer/Interleaved has the
-- calls of one provider as a relation whose steps run from one yield to the next, over the pool of
-- the provider's connections. A connection has the texts that the provider has not served yet and
-- the bytes that nobody has read yet, of which a read takes as many as it likes, and it can break.
--
-- Provider models src/provider_agent.cc: the registration in the constructor and session_consumer,
-- over the rounds of its loop, each with what the read gives and how dubbo answers; in
-- Provider/Http the older protocol, handle_request. Both agents read into buffers of 2048 bytes
-- that need a zero byte behind the data (Common/Buffer); without one the code reads on behind the
-- buffer, which is a fault. Provider/Registration follows addresses from provider agents through
-- etcd into a consumer agent, and Provider/Link joins the two ends of one connection as a relation
-- whose steps are requests.
--
-- Selector/Race splits query_once into its accesses to the static iterator, so that two threads
-- can interleave them.
--
-- Main models src/main.cc, from the command line to the agent that is started. rlib's option
-- parser is a parameter.
--
-- Dubbo models lib/dubbo_client.hpp: the bytes of the packed header, the payload's template and
-- both requests. A connection is the bytes that come in over it and the errors of the two writes;
-- what the pool throws when it has to connect and cannot is given with them.
-- The machine is little-endian, and the bit-fields stand in the order that the build chooses.
--
-- Dubbo/Framing and Dubbo/Sequence read a connection as frames, a header and the bytes that it
-- announces; Dubbo/Layout compares the struct with its sixteen bytes.
--
-- EtcdService models src/etcd_service.hpp and .cc over the etcd client, a parameter with the law
-- that a value that was set is read. EtcdKvService models the deprecated template in
-- src/etcd_kv_service.hpp and .cc, which keeps nothing; its pull_cache has no body and is a
-- parameter.
--
-- Bytes are numbers and std::string is a list of them (Common/Text). A C++ exception is a value,
-- of Run where the code changes a state and of Except where it does not.
--
-- ConnPool models lib/boost_asio_quick_connect.hpp, lib/conn_pool.hpp and how the constructor of
-- provider_info fills its pool, over boost's resolver, a parameter. The pool's size, which the
-- build chooses, is an argument. Json models lib/json_serializer.hpp over boost's read_json, a
-- parameter.
--
-- Not modelled: boost's event loop and sockets, logging, and the declarations that nothing uses
-- (http_forwarder, the heartbeat).

pub mod Common
pub mod ConnPool
pub mod Consumer
pub mod Dubbo
pub mod EtcdKvService
pub mod EtcdService
pub mod Event
pub mod Json
pub mod Main
pub mod Payload
pub mod Pool
pub mod Provider
pub mod Selector
pub mod TraceableList
