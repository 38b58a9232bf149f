-- ===== src/Lib.antt =====
-- The daemon of the Trustonic TEE user space: a model in cubical type theory, with proofs.
--
-- The daemon stands between clients in the normal world and the secure world. A client connects,
-- opens sessions with Trusted Applications, shares buffers with them and is told of their
-- notifications. The daemon talks to the secure world through one shared page, the MCI buffer: a
-- message (MCP), two rings of notifications, and flags for the scheduler. What the daemon's device
-- keeps is a list of sessions, a queue of notifications for sessions that it does not know yet,
-- and whether the secure world has failed.
--
-- Which file models which part:
--
-- Prelude, Prelude/*: the natural numbers, lists, bits and 32-bit words that the parts share.
-- OrdMap: what the daemon uses of `std::map<uint32_t, T>`.
-- Status: the result codes of MobiCoreDriverLib/ClientLib/public/MobiCoreDriverApi.h and of
--   common/MobiCore/inc/Mci/mcimcp.h, with the macros that pack and unpack them.
-- NotificationQueue: MobiCoreDriverLib/Daemon/Device/NotificationQueue.cpp. The counters wrap at
--   2 ^ 32. `Refinement` compares a ring with a FIFO.
-- TrustletSession: MobiCoreDriverLib/Daemon/Device/TrustletSession.cpp. `Lifecycle` is about its
--   states and its queue, `Buffers` about the buffers that it maps.
-- Device: class MobiCoreDevice (MobiCoreDriverLib/Daemon/Device/MobiCoreDevice.cpp) and its subclass
--   TrustZoneDevice (MobiCoreDriverLib/Daemon/Device/Platforms/Generic/TrustZoneDevice.cpp).
--   - `Irq` is handleIrq, getTrustletSession and queueUnknownNotification;
--   - `Mcp` is notify(uint32_t), waitMcpNotification and mshNotifyAndWait, and the checks that every
--     command makes on its response;
--   - `Sessions` is findSession, registerTrustletConnection, notify(Connection) and freeSession;
--   - `Commands` is mapBulk, unmapBulk, getMobiCoreVersion, loadToken and checkLoad;
--   - `Open` is openSession;
--   - `Close` is sendSessionCloseCmd, closeSessionInternal, closeSession, close(Connection) and the
--     clean-up in start();
--   - `TaExit` is the inner loop of handleTaExit;
--   - `Timeout` is schedule.
--   The other modules below Device hold proofs: `Skeleton` and `Ownership` say what of the list of
--   sessions an operation keeps, `Lookups` what is found in it, `Faults` and `Replies` are about the exchange with the secure world,
--   `Opening`, `Locks`, `Closing`, `CloseAll`, `Cleanup`, `Mapping` and `Delivery` about the operations.
-- Semaphore: MobiCoreDriverLib/Common/CSemaphore.cpp, as a step relation on what threads do under its
--   mutex; sleeping threads may wake up at any time. `Permits` counts the permits.
-- Daemon: MobiCoreDriverLib/Daemon/MobiCoreDriverDaemon.cpp, the commands of a connection.
--   - `Daemon` itself holds the state (the device, the connections that opened it, the bytes written
--     to the clients) and the macros RECV_PAYLOAD_FROM_CLIENT and CHECK_DEVICE;
--   - `Services` is processOpenSession and what it does with the service's memory, `Trustlet` is
--     processOpenTrustlet with the loop that reads the Trustlet, `Process` the other process…
--     functions, `Dispatch` is handleCommand and dropConnection, `RegistryCommands` is
--     processRegistryReadData and processRegistryWriteData, over the files of Registry;
--   - `Others`, with `Kept` and `Isolation`, is about the sessions of other connections; `Answers`,
--     `Unopened`, `Connect`, `Reading` and `BufferLocks` are about replies, devices that are not open,
--     NQ_CONNECT, the loop of `Trustlet` and the locks of bulk buffers, `Containers` about what a client
--     reads of the registry.
-- Client: the client library's own state, MobiCoreDriverLib/ClientLib/Session.cpp (`Session`) and
--   MobiCoreDriverLib/ClientLib/Device.cpp (`Device`). `Buffers` and `Memory` hold proofs.
--   `Api` is MobiCoreDriverLib/ClientLib/ClientLib.cpp: `Devices` opens and closes devices, `Sessions`
--   opens and closes sessions and has mcNotify, `Memory` has mcMallocWsm, mcMap and their inverses,
--   `Wait` is mcWaitNotification, and `Codes` the translation of the daemon's codes. `Drains`, `Lookup`,
--   `Opened`, `Openings`, `Refused` and `ExitCodes` hold proofs.
-- Registry: MobiCoreDriverLib/Registry/PrivateRegistry.cpp, over a file system. `Paths` names the
--   files, `Containers` stores and reads the containers, `TaBlob` is mcRegistryStoreTABlob. `Files`,
--   `Names`, `RoundTrips`, `Data`, `TaChecks`, `TaReads` and `TaStored` hold proofs.
--
-- How the code is modelled. An operation of the daemon is a function from the device to its result
-- and the device afterwards. What the daemon does to the rest of the system (commands, locks,
-- messages to clients) is a log in the device. The secure world, the kernel module, the allocator
-- and `rand()` are a record of functions of that log, so that they may answer each time as they
-- like; no theorem supposes more of them than it says. The client library's kernel module is such
-- a parameter too. An exchange with the secure world names what happens between the command and
-- its response: the notifications that the IRQ thread handles meanwhile, how each wait for the
-- semaphore ends, and the response. That is where the threads of the daemon meet, since the code
-- holds the MCP mutex over a command; other interleavings, and the mutexes themselves, are not
-- modelled. A session has the address of its object, by which the list tells sessions apart; a
-- connection is a number. Notifications that the log does not show are those in the rings, which
-- stand in the device.
--
-- The daemon's commands run one after the other, as mutex_mcp makes them; its look-ups in the
-- registry, its calls of malloc and its registrations with the kernel module are functions of its log.
-- The client library's platform (the daemon's answers, what a socket gives, the kernel module) is a
-- parameter likewise; an out parameter of a call is a part of its result. The registry's disk says of
-- each call of the C library on a file whether it fails.
--
-- Loops. waitMcpNotification tries five times, as its counter says. close(Connection),
-- handleTaExit and the loop over the incoming ring have fuel and give no result if it runs out;
-- the results below say how much is enough, and where the code may loop for ever. So have the loop in
-- which processOpenTrustlet reads, and that of mcWaitNotification over the queue of its socket. The fuel of
-- freeSession is the number of buffers, and that of the scheduler's loop over milliseconds is
-- their number.
--
-- Not modelled: the GP API, the rest of the registry (the getters of service blobs and the clean-up
-- calls) and the daemon's command for them, loadDeviceDriver, installEndorsementToken, the daemon's
-- sockets and the threads that queue commands (Server), the file storage daemon (FSD), the kernel
-- module's ioctls, the threads' start and end, and logging. A file of the registry is stored in its
-- writable folder, as MC_REGISTRY_WRITABLE says; which folders exist is not modelled but for those of
-- Trustlet data. The lines of dumpMobicoreStatus that end the process on TrustZoneDevice are those of
-- the base class here. `assert` is left out, as in a build with NDEBUG.
pub mod Prelude
pub mod Status
pub mod OrdMap
pub mod Registry
pub mod TrustletSession
pub mod Daemon
pub mod Device
pub mod NotificationQueue
pub mod Client
pub mod Semaphore
