-- ===== src/Lib.antt =====
-- A model of rdma_comm_core, a C++ library for RDMA communication, with the theorems that make it correct.
--
-- A program allocates buffers, and a session connects it to its peers. Each connection is an endpoint, which
-- has a TCP socket and one channel. A channel is an adapter with the buffers that are registered in it; an
-- adapter takes a device, allocates a protection domain, a completion queue and a queue pair on it, exchanges
-- their numbers with the peer over the socket, and then posts requests for buffers. The session polls the
-- completion queues and hands every completion to a callback.
--
-- The files, and the code each of them models:
--   Prelude        shared lists, options, tables and numbers; `Outcome`, how a call ends
--   Memory         the bytes of the process; memset and memcpy
--   Buffer         src/rdma_buffer.cc, include/rdma_buffer.h: RDMABuffer, its blocks, next() and last().
--                  Window, Ring and Schedule are about next and last, Layout about the constructor, Fill about
--                  fill_in
--   Verbs          libibverbs, a parameter: what it answers is a function of the calls before
--   Device         src/rdma_device.cc, include/rdma_device.h: RDMADevice and the table of devices. Post has the
--                  requests, MemoryRegion the registration of memory, Ports and Queues the theorems
--   Adapter        src/rdma_adapter.cc, include/rdma_adapter.h: RDMAAdapter. Loading, Connect and Transfer
--                  are its three parts
--   Channel        src/rdma_channel.cc and the registration methods of src/rdma_buffer.cc: RDMAChannel. A host
--                  is a channel with the buffers of the process by address
--   Tcp            src/tcp_connector.cc: TCPConnector, over the kernel as a parameter
--   Endpoint       src/rdma_endpoint.cc: RDMAEndPoint, which connects its channel over the socket. Create has
--                  the constructors of the endpoint and of the objects that it owns
--   Session        src/rdma_session.cc: process_CQ, running and, in Defaults, the callbacks that test a
--                  connection. Setup is about src/rdma_client_sess.cc and src/rdma_server_sess.cc, and has
--                  accept_new_connection
--   Config         include/config.h and include/rdma_config.h: the configuration and its command line. Order has
--                  the sort, Cluster and Parse the theorems
--   Benchmark      example/lat_bw_benchmark.cc: the client and the server that measure latency and bandwidth.
--                  Waits, Blocks and Requests are about the steps of a test, Latency, Sizes, Bandwidth and Pair
--                  about its loops; Start has process_CQ
--   Mesh           example/mesh_comm_service.cc: the two towers. A lane is a channel with its two buffers;
--                  Start has process_CQ; Lanes is about its steps, Posting, Prepared and Ready about the start,
--                  Service, Traffic and Stream about the completions
--   Timers         include/util/time_event.h: TimeEvent by ticks. Single, Schedule and Set are about its events,
--                  Signals about ManualEvent and AutoEvent; Stopwatch models include/util/time_record.h
--   Samples        concrete inputs; each component has its Tests
--
-- A method is a function from the state to an `Outcome`: `ok` with what it returns and the state after it, or
-- the fault that takes the process down (CHECK, LOG(FATAL), or an access without defined behaviour). An object
-- behind a pointer that other objects keep is named by its address or its key, and a table holds it; 0 is
-- nullptr. The calls of libibverbs are recorded in a trace, the latest first. Numbers are natural numbers, with
-- the wrap-around of the C++ type written out where the code can reach it.
--
-- Loops that the code does not bound run on fuel: the ports of a device (more rounds than ports are enough),
-- the receiving loops (one round more than the bytes to receive is enough on an open connection), the accepting
-- loop (one round more than the cluster is enough), the options of the command line (more rounds than arguments
-- are enough), the sizes of a benchmark (25 rounds are enough), a wait of the benchmark (as many polls as the
-- library takes to answer), and the endless loops of process_CQ. `no_fuel` says that the
-- rounds were used up, and is no behaviour of the program. The destructor of a channel takes as many rounds as
-- the channel has buffers.
--
-- Not modelled: logging and tracing, which only print; the mutexes and the threads (a call is one step, a group of
-- channels is one run of process_CQ, and real_connecting, which connects all endpoints at once, is left out);
-- free() of a buffer's memory; the waiting of a timer's thread, with its drift; getopt_long, a parameter; the
-- main functions of the examples and the times that the benchmark measures; include/util/ip_qos_helper.h and
-- net_util.h, which only ask the kernel.
pub mod Prelude
pub mod Memory
pub mod Buffer
pub mod Verbs
pub mod Device
pub mod Adapter
pub mod Channel
pub mod Tcp
pub mod Session
pub mod Benchmark
pub mod Mesh
pub mod Timers
pub mod Config
pub mod Samples
pub mod Endpoint
