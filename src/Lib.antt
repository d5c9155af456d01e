-- ===== src/Lib.antt =====
-- A verification library for the client and server framework and for the calculator built on it.
--
-- A client scrapes requests from an input stream into a queue, sends each to the server over a
-- connection and handles the answers; the server accepts clients in one event loop, with a session
-- for each. Both sides send messages: a header of eight characters and the filtered, serialized
-- data. Above the socket lie, in this order, the IO strategy, the connection with its filter, and
-- the connector or the session; the calculator supplies requests, answers and strategies.
--
-- The parts and their files. Paths of the program start at the root of the repository; FW stands
-- for ClientServerFramework, and CALC for ClientServerCalculator.
--   Prelude      library names, Boolean tests on numbers (Tests), lemmas on lists (Lists).
--   Errors       error codes, exceptions, and the outcome of a call: it returns, throws, or is
--                undefined by the language.
--   Header       the header in FW/Shared/Connection/Connection_base.hpp: `format_header` for setw
--                and hex, `parse_header` for handle_determine_data_size. Format is on what is
--                written, Scan on what is read, RoundTrip on both.
--   Filter       FW/Shared/IO/Filter_base.hpp, DefaultFilter.hpp, CompressionFilter.hpp and
--                Filter_base_factory.hpp.
--   Ssl          FW/Shared/IO/SSL.hpp; Setup is on the context that the options determine.
--   Socket       what the strategies call on a socket, and the side of FW/Shared/IO/IO_base.hpp.
--   UnsecuredIo, SslIo  FW/Shared/IO/UnsecuredIO.hpp and SSL_IO.hpp.
--   Io           FW/Shared/IO/IO_base.hpp, whose virtual functions dispatch on the strategy, and
--                IO_base_factory.hpp; Strategy is on the factory and on connecting.
--   Connection   FW/Shared/Connection/Connection_base.hpp: `read`, `write`, `async_read`,
--                `async_write` and their handlers. State has its members, and
--                Stream says what archives and pipes are assumed to do; Transfers and Sync are on
--                blocking reads and writes, Async and Converse compare them with the asynchronous
--                ones, Arrival and Departure are on the message of an asynchronous transfer, Exchange
--                is on several messages, Faults on broken input, Kept and Raised on what the
--                handlers keep and when they throw.
--   Endpoints    FW/Shared/Connection/ClientConnection.hpp and ServerConnection.hpp; Matching
--                compares the two ends.
--   Response     FW/Server/Response.hpp.
--   Serialization  the member functions `serialize` of FW/Server/Response.hpp and of
--                CALC/TCPClient/client_data.hpp and CALC/TCPServer/server_data.hpp; RoundTrip is on
--                saving and loading, Dialogue on a request and its answer.
--   Queue        FW/Shared/Container/SafeQueue.hpp; Locking has the threads with the lock, Atomic
--                and Progress are on their interleavings.
--   Singleton    FW/Shared/DesignPatterns/Singleton.hpp.
--   Client       FW/Client/Client.hpp and Scraper.hpp as two threads, with a function for what a
--                thread does between two accesses to what they share; Steps is the step relation,
--                Fifo and Alive are on all interleavings, Finish on how a client comes to its end,
--                Race on one interleaving. Channel is what the client promises, and Refinement
--                compares the two. Connector models FW/Client/Connector.hpp; Creation has the
--                constructors of both.
--   Session      FW/Server/Session.hpp: each handler is a function, and a session waits at a program
--                point for a completion; Replies and Numbers are on its runs, Turns on one request,
--                Throws on what ends them,
--                Pending on what a session has done when it waits.
--   Server       FW/Server/AsyncServer.hpp and the counter of sessions; Sessions and Replies
--                are on runs of the event loop, Failure on what ends it.
--   Proactor     FW/Server/AsyncServer.hpp again, down to the transfers: each session of
--                FW/Server/Session.hpp has its connection, a message takes two transfers, and the
--                completions of all sessions come in any order; `listening` is the failure of the
--                acceptor's constructor, if it fails. Table is on the sessions of a host. Peers
--                is on one session, and Simulation relates all of them to Server; Beginnings is
--                on the constructors of a connection and of the server; Faults and Outages are on
--                what throws at one completion, Stops on the whole run; Buffers, Shaking and
--                Pending are on the operation that is pending; Numbered and Isolation are on the
--                events of other sessions; Transfers and Exchange are on a request and its
--                answer.
--   Conversation  the composition of Connector, Session and both connections: a request on its way
--                to the server and its answer on the way back. Turn is on the server's part,
--                Answers on the whole.
--   Calculator   CALC/TCPClient/client_data.hpp and client_data.cpp, ClientActions.hpp, and
--                CALC/TCPServer/server_data.hpp and ServerAction.hpp; Answer is on the strategies.
--   DataScraper  CALC/TCPClient/DataScraper.cpp and DataScraper.hpp; Lines is on reading a line,
--                Items on parsing it, Valid on the operation of a request, RoundTrip on printed
--                requests.
--   Pipeline     the calculator as a whole, from the lines of the input to the answers.
--   DataGenerator  CALC/DataGenerator/DataGenerator.cpp; Scraped is on its output as an input,
--                Bounds on the number of requests.
--   Atoi         std::atoi of the C library, by its documentation; Digits is on decimal numbers.
--   Programs     the main programs CALC/TCPClient/Calculator-TCPClient.cpp and
--                CALC/TCPServer/Calculator-TCPServer.cpp; Settings compares their settings, Ports is
--                on the port, Launching on how the client begins, Exits on how it ends; Serving and
--                Outages are on how the server ends, with and without its transfers.
-- Each part's Tests has its test data and the theorems at concrete inputs.
--
-- Bounds and fuel. Sizes are natural numbers below 2^64 where the program has a size_t, and the
-- bounds are written out (`size_mod`, `max_size`). Digits are written on fuel 16, which is the
-- number of hexadecimal digits of a size_t. `read_line` runs on one more than the number of
-- characters left, since each round of its loop takes at least one character or stops the loop.
-- `request_loop` runs on one more than the number of requests asked for, one for each and one for
-- the last test. An int is its bit pattern below 2^32, and overflow of an int is undefined.
-- Everything else is structural recursion or a relation.
--
-- Parameters, with hypotheses where a theorem needs what they document: zlib, the Boost archives,
-- Boost.Asio's operations on a socket and its resolver, extraction and printing of numbers, the
-- operations of double and which doubles the archives load again, random draws, the clock, the
-- constants of boost::asio::ssl, which calls on a context OpenSSL refuses (as for a missing file),
-- which ports can be listened on, and the directory of the installation.
--
-- Not modelled: OpenSSL behind the calls on a context, logging, printed messages, the type aliases
-- for TCP, the random engine, and the loss of memory. What Boost does with an operation that is
-- pending is an event: on the server, the completions that the operating system delivers are
-- arbitrary, except that they match the operation which is pending. A strategy of the client is
-- recorded by what it is given and does not throw.
pub mod Prelude
pub mod Errors
pub mod Header
pub mod Atoi
pub mod Filter
pub mod Ssl
pub mod Socket
pub mod UnsecuredIo
pub mod SslIo
pub mod Io
pub mod Connection
pub mod Endpoints
pub mod Response
pub mod Serialization
pub mod Queue
pub mod Singleton
pub mod Client
pub mod Session
pub mod Server
pub mod Proactor
pub mod Conversation
pub mod Pipeline
pub mod Calculator
pub mod Programs
pub mod DataScraper
pub mod DataGenerator
