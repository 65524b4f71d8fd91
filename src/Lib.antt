-- ===== src/Lib.antt =====
-- RaftLib, a C++ library for stream processing: kernels that run in threads of their own and talk
-- through queues.
--
-- The parts and how they interact. A queue (raftinc/fifo.hpp) has one writing and one reading thread,
-- and a third thread may replace its buffer by a larger one. Its data are a ring of items and a ring
-- of signals (raftinc/bufferdata.tcc), each end has a pointer that counts its wraps
-- (src/pointer.cpp), and flags tell the resizing thread who is inside (raftinc/threadaccess.hpp,
-- raftinc/datamanager.tcc). The scheduler (src/schedule.cpp) runs a kernel as long as its queues may
-- bring it data, and the map of kernels is walked by src/graphtools.cpp. The map is built from chains of
-- pairs: the operators of src/kpair.cpp allocate the pairs, and operator += of src/map.cpp links them
-- port to port and clones kernels for splits and joins; the ports of a kernel are in src/port.cpp.
--
-- Files:
-- Prelude: the shared names, Boolean tests, lists, memory as a function.
-- Pointer: class Pointer; Pointer/Position: how far a pointer travelled.
-- Blocked: struct Blocked. Access: the flags of raftinc/threadaccess.hpp.
-- Buffer: Buffer::Data for items kept inline, its two constructors and copyFrom.
-- Fifo: the queue's state, enterBuffer, exitBuffer, invalidate and resize; Fifo/Size, Fifo/Write and
-- Fifo/Read: the calls of raftinc/ringbufferheap.tcc, raftinc/ringbufferheap_abstract.tcc and
-- raftinc/ringbufferheap_lessabstract.tcc under their own names. Fifo/Queue is the abstract queue,
-- the other files under Fifo hold the proofs.
-- Handshake: the same gate with all four threads, the load of thread_access and the store of a flag being
-- two steps, copyFrom's copy of the flags one, and set() one: the steps of enterBuffer,
-- notResizing and exitBuffer and of the loop of DataManager::resize; Handshake/Exclusion and
-- Handshake/Race hold the proofs.
-- Threads: local_push and local_pop of raftinc/ringbufferheap.tcc, with size and invalidate of
-- raftinc/ringbufferheap_abstract.tcc and Pointer::inc, one access to a shared variable at a time, and
-- the schedules of the two threads; the other files under Threads hold the proofs.
-- Schedule: kernelHasInputData, kernelHasNoInputPorts, kernelRun, invalidateOutputPorts and fifo_gc of
-- src/schedule.cpp. Its ports are abstract queues. Schedule/Rounds: the loop of start of
-- src/simpleschedule.cpp, by the list of what happens between its passes.
-- Graph: the breadth-first walk over kernels of src/graphtools.cpp, and Graph/Edges the one over edges.
-- Alloc: src/allocate.cpp, src/stdalloc.cpp and src/dynalloc.cpp.
-- Split: raftinc/split.tcc, raftinc/join.tcc, raftinc/splitmethod.hpp and src/roundrobin.cpp.
-- Topology: join and insert of src/mapbase.cpp and allConnected of src/kernel.cpp.
-- Map: the map under construction: link and updateKernels of raftinc/mapbase.hpp and clone of
-- raftinc/kernel.hpp; Map/Chain: joink, inline_cont, inline_split, inline_join and inline_dup_join of
-- src/map.cpp; Map/Build: its operator += and checkEdges. The other files under Map hold the proofs.
-- Pairs: the constructors of kpair and the operators of src/kpair.cpp, and how operator += reads a chain.
-- Partition: src/partition_basic.cpp and src/partition_scotch.cpp; Partition/Arcs: raftinc/graph.tcc. The Scotch
-- library is a parameter. The other files under Partition hold the proofs.
-- File: filereader of raftinc/fileio.tcc; File/Pieces, File/Position and File/Whole hold the proofs.
-- Each: raftinc/readeach.tcc and raftinc/writeeach.tcc, joined by an abstract queue; Each/Copied holds the
-- proofs.
-- Port: src/port.cpp, addPort and addInPlacePorts of raftinc/port.hpp, src/portiterator.cpp.
--
-- A call that blocks is modelled as one attempt of its loop, which says by its outcome whether the
-- loop ends, goes round again, or throws; no fuel is needed, and a sequence of attempts stands for a
-- schedule of the threads. The walks over the graph run on fuel, and more than the number of kernels is
-- enough; so does the reading of a chain of pairs, where as much as their number is enough. A quotient of
-- floats loses its last binary places one by one, on fuel for 155 of them, which the quotients of 64-bit
-- numbers do not use up. The machine
-- has 64-bit words and a 16-byte Signal.
--
-- A call that builds the map changes a World and returns, throws, or is undefined: a failed assertion,
-- an iterator that
-- is read at its end, or the first or last of no groups. An exception leaves what was done before it. The ports of a
-- kernel are lists of names in one order, which a hash map does not fix. A kernel's clone is what the
-- macro CLONE makes: a copy of its class, whose constructor adds the ports. A chain is added as if the
-- head pointer of each of its pairs led to the first one; only a chain in brackets on the right of
-- `<=` or `>=` behind a kernel keeps another.
--
-- Not modelled: the effects of a weak memory model, a resize between two accesses of one call of
-- local_push or local_pop, destructors and placement new of class types, shared memory, affinity,
-- prefetching and statistics of floating point numbers. Of the map, exe is not modelled, nor is
-- enableDuplication, which inserts split and join kernels into finished links and whose call in exe is
-- commented out.
pub mod Prelude
pub mod Pointer
pub mod Blocked
pub mod Access
pub mod Buffer
pub mod Fifo
pub mod Handshake
pub mod Threads
pub mod Schedule
pub mod Graph
pub mod Topology
pub mod Map
pub mod Pairs
pub mod Partition
pub mod Port
pub mod File
pub mod Each
pub mod Alloc
pub mod Split
