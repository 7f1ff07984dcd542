-- ===== src/Lib.antt =====
-- kvm-cloud: a manager, several controllers and a client that start virtual machines on the
-- controllers' hosts and talk over TCP in messages of lines.
--
-- The parts. A controller process (src/controller.cpp) has one `Vm::Controller`
-- (src/Vm/Controller.hpp), which keeps the instances of its host, and serves each connection by a
-- command handler. The manager process (src/manager.cpp) is a client of several controllers by
-- `Vm::ControllerProxy` and serves the same commands; an instance's id there is "server/id". All
-- connections use `Net::Socket`.
--
-- The modules.
--   Base        tests on numbers, lists of bytes, results, and code with a state and errors (Exec).
--   Std         what the program uses of C++: int, std::string, std::map, to_string and stoi.
--   Thread      src/Thread: Mutex is the recursive mutex; Sections is a step relation of threads whose
--               accesses stand in the scope of a ScopedLock, and where an access may wait for a message
--               that does not come; Lifetime is how a thread starts and ends. Serial, Progress and Stuck
--               prove.
--   Net         src/Net: Stream is SocketStreambuf with getline and the loop of Socket::read, on an open
--               connection and, in read_to, on a closed one; Socket is the writing side; Server is the
--               opening and closing of both kinds of socket, and Server.Accepting the accept loop of
--               both servers.
--               Stream.Frames, Stream.Ends, Socket.Delivery, Socket.Pending and Server.Startup prove.
--   Sys         Host and Network are the operating system, parameters with their laws; Process is
--               src/Sys/Process.hpp.
--   Util        src/Util/Cookie.hpp, Helpers.hpp and Logger.hpp. Cookie.Saved, Cookie.Range and
--               Logger.Overflow prove.
--   Vm          Template, InstanceInfo, Instance; Controller with its methods in Controller.Methods;
--               Proxy is src/Vm/ControllerProxy.hpp. The other modules below Controller and Proxy
--               prove: Search, Outcomes, Running and Restoring are about single methods;
--               Rerunning is about `run` and what can be done behind it; Upkeep and Making are about
--               what every method keeps up, which WellFormed and Others use; NewFiles and
--               Instantiating are about what `instantiate` leaves on disk, Failing about what it
--               leaves when it throws, and Reloading about the constructor on a directory of
--               instances.
--   Controller  the command handler of src/controller.cpp, and its main in Startup. Replies, Remote
--               with its children, and Serving prove: Remote joins a proxy and a handler (Orders is
--               `run` and `kill` as one), Serving gives the interface that Manager.Service asks for.
--   Manager     the command handler of src/manager.cpp, its main in Startup, and the file that it reads
--               in Reading. Warnings has `run` and `kill` with their log lines. Ids, Turns, Service, Rounds,
--               Search, Named and Warnings prove: Service is what the manager asks of its controllers,
--               which Controller.Serving fills. Answering makes the manager the other end of a proxy, and
--               four groups join a proxy to it: Relay (`run` and `kill`); Labels, Listing, Gathering,
--               Passing and Vacant (`getInstances`); Catalog and Offering (`getTemplates`); Hiring and
--               Creating (`instantiate`). Blank, here and below Controller.Remote and Client, is about
--               a full id with nothing behind the slash.
--   Client      src/client.cpp: the interpreter of the command line. Calls and Making are about a session
--               on a node, Orders about both kinds of session, Listing, Vacant and Creating about one on
--               the manager.
--   Tests       a small machine, and runs.
--
-- State and errors. A socket is the bytes that have arrived, the bytes written, and writeCount. A
-- method of a controller is a function from the node (the controller and its machine) to a result and
-- a node, since what is changed before an exception stays changed. A C++ exception, a wait for more
-- bytes, undefined behaviour (a vector read out of range) and a loop that does not end are different
-- errors; only exceptions can be caught. An `int` is an integer with the range of 32 bits written out,
-- and its overflow is undefined behaviour; only writeCount is an unbounded natural number.
--
-- The other end of a proxy's socket is a parameter that answers bytes by bytes. The proxy waits for
-- every reply, so a call is: the request leaves, the other end acts, the reply arrives.
--
-- Fuel. A loop that searches an id or a port has the 2^32 values of an `int` as its fuel, one for
-- every value that it can try. A read has a fuel above the number of bytes that have arrived.
--
-- Threads. A handler that holds the manager's mutex is a list of accesses to the shared state, each a
-- function or a read that does not return, and the steps of several threads come in any order. The
-- handlers themselves are modelled one at a time.
--
-- Not modelled: the handling of SIGCHLD by the controller's main, the calls of pthreads behind the
-- mutex, the clock, the log lines within the handlers but for the request line and those of a `run` or
-- `kill` of the manager that finds no controller, the descriptors that the probes of a port leave open,
-- and the calls of the operating system behind Host and Network. src/include/libkvm.h is a header of
-- another project, for an interface of Linux that the program does not use.
pub mod Base
pub mod Std
pub mod Net
pub mod Sys
pub mod Thread
pub mod Util
pub mod Vm
pub mod Controller
pub mod Manager
pub mod Client
pub mod Tests
