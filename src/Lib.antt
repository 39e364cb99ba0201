-- ===== src/Lib.antt =====
-- Bugat is a C++ game-server framework: a runtime of lock-free queues, reference counts, pools and
-- locks (Core), a network layer in which every object runs its own tasks one at a time on the
-- threads of a context (Base), and a server and a test client on top (GameServer, TestClient).
-- This library models the core of the runtime and of the network layer, and proves what a user of
-- the framework relies on.
--
-- How the parts interact. A `Session` hands a message to the send queue of its `Connection`; the
-- coroutine `Connection::Send` writes the queue to the socket, and `Connection::Recv` cuts what
-- the socket reads into packets. Both coroutines are resumed by tasks posted to the connection,
-- which is a `SerializeObject`: a `TaskSerializer` that puts itself into the queues of a `Context`
-- when it has tasks. Objects, packets and blocks are held by `TSharedPtr`.
--
-- Which file models what:
--   Common        what every module uses: Boolean tests, lists, integers, lists of threads
--   Framing       Base/Header.h, Base/DataBlock.h, Base/Packet.h, Base/NetworkMessage.h, and the
--                 receive loop of Base/Connection.cpp
--   Sending       PacketHelper and the send loop of Base/Connection.cpp
--   Link          Base/Session.cpp over both loops, end to end
--   Serializer    Core/TaskSerializer.h and .cpp with Base/SerializeObject.cpp, on many threads
--   SharedPtr     Core/memory/TSharedPtr.h
--   Context       Base/Context.cpp: the rotation of queues between slots and threads
--   Connection    Start and Close of Base/Connection.cpp
--   Locks         Core/lock/RWLockObject.h and Core/lock/LockObject.h
--   Queue         Core/lockfree/LockFreeQueue.h over free_list.hpp, node by node
--   TaggedPtr     Core/lockfree/tagged_ptr.hpp, tagged_ptr_dcas.hpp, tagged_ptr_compress.hpp
--   Pool          Core/memory/MemoryPool.h
--   Objects       Base/ObjectId.h and Base/ObjectManager.h
--   Events        Core/Event.h
--   Rtti          Core/RTTI.h
--   Tasks         Core/Task.h
--   Coroutine     Base/AwaitTask.h and Spawn_ of Base/Macro.h
--   GameData      GameServer/GameData
--   World         GameServer/WorldServer.cpp, GameSession.cpp, GameHandler.cpp and PlayerHandle.cpp,
--                 with Base/Session.cpp and Base/Handle.h
--   Param         Base/Param.h
--   Macro         the parameter lists of Base/Macro.h
--   Server        the accept loops of Base/Server.cpp
--
-- Conventions. A byte is a natural number; an `int` of a block or a header is its 32-bit pattern,
-- with its wrap-around written out. The state of a part is a record with the names of the source's
-- fields. Code that one thread runs is a function on that record. Code that many threads run is a
-- step relation: a thread has a program counter with its live locals, a step is one access to
-- shared memory, any thread may take the next step, and memory is sequentially consistent. Where a
-- step takes effect at one access of a lock-free queue, the queue is a list; Queue models its
-- nodes.
--
-- Fuel. The inner receive loop `while (msg.GetNetMessage(packet))` runs on fuel, since the code
-- does not bound it: each packet takes at least the bytes of its header, so that a fuel above the
-- number of bytes on the wire is enough for whole messages. The send loop is a sequence of rounds,
-- one for each completion of the socket.
--
-- Not modelled: the sockets and timers of boost, flatbuffers, the Redis client and logging, which
-- the code only calls; the generated headers of Protocol/, and the test client. Exceptions
-- out of a coroutine end the program in a release build. What a socket reports is an argument of
-- the rounds that await it.
-- A packet's body is a list of bytes, whose decoding is flatbuffers' own.
pub mod Common
pub mod Framing
pub mod Sending
pub mod Link
pub mod Serializer
pub mod SharedPtr
pub mod Connection
pub mod Locks
pub mod TaggedPtr
pub mod Objects
pub mod Events
pub mod Rtti
pub mod Queue
pub mod Context
pub mod Param
pub mod Pool
pub mod Tasks
pub mod Coroutine
pub mod GameData
pub mod World
pub mod Macro
pub mod Server
