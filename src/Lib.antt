-- ===== src/Lib.antt =====
-- The server of the UCLA bathroom ratings: an HTTP server that reads an nginx-style configuration,
-- routes each request to the handler of the longest matching location, and serves files or the
-- objects of an entity store. The files below model src/*.cc and include/*.h of the repository.
--
-- Config. src/config_parser.cc and include/config_parser.h. Config/Syntax is the tree with
-- `ToString`; Config/Lexer is `ParseToken`, one function per state of its switch; Config/Parser is
-- `Parse`, with `round` for one round of its loop and a list of frames for `config_stack`.
-- Config/Run shows that the fuel of `parse_loop`, one more than the bytes of the input, is enough.
-- Config/Printable says what a well-formed configuration is; Config/Lexing, Config/Levels,
-- Config/Statements and Config/RoundTrip follow the parser over printed text, Config/LexerSound,
-- Config/Invariant and Config/Sound over any text.
--
-- Http. Http/Message is include/request_handler.h, Http/RequestParser is src/request_parser.cc,
-- Http/ResponseBuilder is src/response_builder.cc and `SerializeResponse` of src/session.cc.
-- Http/Heads and Http/Framing are about the bytes that arrive after the head of a request,
-- Http/Serialized about the message of a response. Http/RequestText is the text of a request as a
-- client writes it; Http/RequestWords and Http/RequestReading follow the parser over that text.
--
-- Store. Store/Interface is include/entity_store.h, a record of operations over a state;
-- Store/InMemory is src/entity_store_in_memory.cc, Store/Persistent is
-- src/entity_store_persistent.cc, Store/Validation and Store/Json are
-- src/entity_store_validation.cc. The unordered maps are association lists; the mutex makes each
-- operation one step. Store/Objects and Store/Memory relate the maps to the data that they stand
-- for, and Store/Contract states what a store promises. Store/Identifiers is about identifiers
-- and entity names as text. Store/Names and Store/Disk relate the files to the data that they
-- stand for; Store/Writes, Store/Allocation, Store/Removes and Store/Durable follow the
-- operations of the store on disk, Store/DiskContract has its contract, and Store/Race two calls
-- of its `Create` at once. Store/Calls, Store/History and Store/Lasting are about sequences of
-- calls of any store, as steps of an abstract map, Store/FileCount and Store/DiskHistory about
-- those of the store on disk, and Store/Partial about a write that fails; Store/Ascending and
-- Store/Order show that the order of a directory does not matter.
--
-- Handler. Handler/Api is src/request_handler_api.cc over any store, Handler/File is
-- src/request_handler_file.cc over any file system. Handler/Segments, Handler/Crud, Handler/Calls,
-- Handler/RoundTrip, Handler/Requests and Handler/Listing are about requests to the API handler,
-- Handler/Containment is about what the file handler serves, Handler/Answers about the responses of
-- both. Handler/Fixed has the four handlers that only answer a fixed text or the request:
-- src/request_handler_echo.cc, src/request_handler_health.cc, src/request_handler_not_found.cc,
-- src/request_handler_sleep.cc.
--
-- Server. Server/Location, Server/Registry and Server/Startup are src/server_main_utils.cc,
-- src/handler_registry.cc and src/handler_factory.cc: the static registry is a state that the
-- extraction of the configuration passes on. Server/Dispatcher is src/request_dispatcher.cc.
-- Server/Session is src/session.cc: a session waits for a read or a write, and `step` is what it
-- does with the event. Server/Metrics is what it logs of a response. Server/Accept is
-- src/server.cc and src/server_main.cc: the accept loop with its sessions as a state, a step for
-- each event that Asio reports, signals included, and `main` until it returns or aborts.
-- Server/Matching, Server/Registration, Server/Routing and Server/Launch hold the proofs about
-- the start, Server/Connection and Server/Progress those about one session, Server/Tally,
-- Server/AcceptLoop and Server/Isolation those about all of them, Server/Exchange, Server/Answers, Server/Entities,
-- Server/Traffic, Server/Outlasting and Server/Removal those about requests from bytes to bytes.
-- Server/Ports is about the port of a `listen` directive, Server/ConfigText, Server/ConfigReading
-- and Server/Deployed about a whole configuration, from its text to the server that runs.
--
-- Base. Byte strings are lists of numbers below 256; `find`, `starts_with` and `get_lines` are
-- those of the C++ library, Base/Int is `int`, and Base/Sort is `std::sort`.
--
-- Bounds and fuel. `parse_loop` has fuel one more than the length of the input, since each round
-- but the last reads a byte. `next_free` and `lowest_free` have fuel one more than the objects,
-- since each try passes one of them. `ParseId` is written with the wrap-around of 32 bits, which is
-- what compilers do where the C++ standard leaves the overflow undefined; `atoi` stops at the ends
-- of a 64-bit `long` as in glibc, and its result is cut to 16 bits. `next_id_` and the counter of the
-- store on disk have no bound of their own: the theorems on `Create` ask for room, which the store
-- in memory has while `next_id_` and the number of the entity's objects are together below 2^31,
-- and the store on disk while an entity has fewer than 2^31 files. An event brings any number of
-- bytes, where the program reads at most 1024 at a time: the theorems on many reads hold for more
-- than the program does, and those on a request in one read ask that it fits.
--
-- Parameters. Whether Boost.JSON sets an error is a function of the body; Boost.Filesystem and
-- the files are the record `FileSystem`; what the operating system lets the store on disk do is
-- the record `System`, with no change in time; the stores of the API handlers and the files are `Services` of a session.
--
-- Not modelled. The sockets, the delivery of signals and the threads themselves are Boost.Asio's
-- and the library's; the log lines but for the metrics of a response, the log sinks and the time
-- zone are output. The threads of `main` run callbacks side by side: the model takes each
-- callback as one step, in any order, but for Store/Race, where a call of `Create` is two steps.
-- Of exceptions there are those that the code catches, that of an acceptor that does not open,
-- and two that abort the program on a thread: the one of `handle_accept`, and the one of
-- `fs::exists` in the file handler. The second is a step of the server, in Server/Accept; the
-- functions of a session stand for callbacks that return, and `step_throws` says which do not. An
-- iteration over a directory that fails between two of its entries throws, and is left out: a
-- directory is listed whole or not at all. What refuses a file of the store on disk does so at
-- each call. Pages and scripts under assets are data to the server.
pub mod Base
pub mod Config
pub mod Http
pub mod Store
pub mod Handler
pub mod Server
