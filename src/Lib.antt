-- ===== src/Lib.antt =====
-- A verification library for network-etc: the lease protocol of PL/ (PaxosLease), the parts of netfram/
-- on which it stands, the header parser of HTTP/, and the messages and chunked bodies of HTTPClient/.
--
-- The program. Each member of a cell runs one `PaxosLease` object, which owns a proposer, an acceptor
-- and a learner. Datagrams come in through `PaxosLease::OnRead`, which parses the text of the
-- session's `CMemblock` with `snreadf` and hands the message to one of the three; timers call the
-- handlers that the three installed. A proposer that wants the lease prepares a proposal number and
-- proposes itself to all members; acceptors promise, reject and accept; a majority of acceptances
-- makes the proposer announce the lease, and learners take it over. Messages are printed into a
-- `CMemblock` and sent to the members that `ReplicatedConfig` lists, which come from the file that
-- `Config` reads. The timers of the handlers are nodes of a `CRBTree` that `CTimer` keeps by deadline;
-- events wait in rings of `CQueueNode`; `FilterWrite` appends what is to be sent to a session's block,
-- and `CSessionManager` finds sessions. A client of HTTP encodes its messages into such blocks.
--
-- The files, and the code that each is about:
--   Base            names of the library that all modules share, tests, lists; Base/Maps: maps, for
--                   std::map
--   Text            netfram/common.cpp: strntouint64, strntoint64; Text/Scan: snreadf, with each
--                   conversion as a function of the bytes that are left and the room of the blocks
--   Memblock        netfram/Memblock.cpp: CMemblock, pointers as offsets; Memblock/Codec: its
--                   overloads for integers and vectors
--   TimeValue       netfram/TimeValue.cpp: CTimeValue, times in nanoseconds
--   Queue           PL/Queue.h: the intrusive queue, on a store of next pointers
--   Ring            netfram/Queue.h: CQueueNode, rings of nodes linked both ways
--   RbTree          netfram/RBTree.h: CRBTree, on a memory of nodes; RbTree/Shapes: which tree hangs
--                   in the memory
--   Timer           netfram/Timer.cpp: CTimer over the tree
--   FilterChain     netfram/FilterChain.cpp: FilterWrite of the tail, over the session's block
--   Config          PL/Config.cpp: the configuration file; Config/Token: ParseToken, Config/Var:
--                   ConfigVar, Config/File: Init and the lookups
--   SessionManager  netfram/SessionManager.cpp: CSessionManager, the tables of sessions;
--                   SessionManager/Next: CNextSession, which takes them in turn
--   HttpMessage     HTTPClient/HttpMessage.cpp: CHttpMessage and its kinds, encoded into a block
--   Imf             HTTP/IMF.cpp: CIMFHeader, the fields of a message header
--   Chunked         HTTPClient/IMF.cpp: ParseChunked, the chunks of a body
--   Lease/Msg       PL/PLeaseMsg.cpp: the message, Read and Write; Lease/Msg/Set: the setters
--   Lease/Config    PL/ReplicatedConfig.cpp: members, quorums, proposal numbers, restart counter
--   Lease/Node      PL/PLeaseState.h and the fields of the classes: the state of one member
--   Lease/Proposer  PL/PLeaseProposer.cpp
--   Lease/Acceptor  PL/PLeaseAcceptor.cpp
--   Lease/Learner   PL/PLeaseLearner.cpp
--   Lease/PaxosLease  PL/PaxosLease.cpp: OnRead and the timers, over the three
--   Lease/Invariant what holds of a member between events, and the events as a step relation
--   Lease/Round     rounds between a proposer and acceptors: datagrams as the text that Write prints,
--                   delivered to OnRead of the other node
--   LogMsg          PL/ReplicatedLogMsg.cpp: the messages of the replicated log
--   Tests           concrete members, messages and blocks
--
-- The model. A member is the record `Node`, with the configuration, the clock's seconds, and a `trace`
-- of what was asked of the timer and of the socket, the newest first. A handler is a function from
-- nodes to nodes, named as the method in the spelling of this library, and returns `none` where an
-- assertion of the source fails. Memory is a list of bytes, and an access outside of it is `none`.
-- `unsigned` and `uint64_t` are native numbers with the wrap-around written out.
--
-- Bounds and fuel. Proposal numbers hold 8 bits of node id and 16 of restart counter, as in
-- PL/ReplicatedConfig.h. `Expand`'s loop has fuel for two rounds: its test fails at most once in a
-- row where the capacity is not 0, since the two sides of the test differ by a factor of four; a
-- block without an allocation does not leave the loop in the source either. `Clear` of a queue
-- runs on fuel, one round more than the queue has elements. Printing a number `n` has the fuel
-- `n + 1`, above the number of its digits. The loop over the values of a line of the configuration has
-- the length of the line, and each round takes a byte or more. The loops of the tree take the fuel as
-- an argument, and the theorems ask for the height of the tree. The loop over the fields of a header
-- has fuel for each byte of the text, and moves on in each round, as the loop over chunks does. The loop of `Clear` over a group of
-- sessions takes its fuel as an argument, and two rounds decide how it ends. The search of
-- `CNextSession` has two rounds more than there are sessions: one for the wrap, one to see the start.
--
-- Not modelled. Sockets, threads, locks and logging. The trace of a member records what is asked of
-- the timer, also a deletion that the timer's assertion would refuse. `ReplicatedConfig::Init` is given the
-- addresses: that `CSockAddr::Set` makes them from memory behind their texts is not modelled. What is read through NULL in the tree and in a ring is
-- what the memory holds at address 0; the theorems' hypotheses leave no such read. The skip list,
-- which the build does not use; Berkeley DB, whose table is a value; the other programs of the repository
-- (the rest of HTTP and HTTPClient, UDP), the general `FindIf` templates, and the copies of
-- other projects: Tair in dkv and tair, and JsonCpp.
pub mod Base
pub mod Text
pub mod Memblock
pub mod TimeValue
pub mod Queue
pub mod Ring
pub mod RbTree
pub mod Timer
pub mod FilterChain
pub mod SessionManager
pub mod HttpMessage
pub mod Imf
pub mod Chunked
pub mod Config
pub mod Lease
pub mod Tests
pub mod LogMsg
