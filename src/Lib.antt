-- ===== src/Lib.antt =====
-- range++ keeps a versioned graph of environments, clusters and hosts in Berkeley DB, answers range
-- expressions over it, and replicates its writes with Paxos. From the bottom up it consists of the
-- record of a node (librange/db/pbuff_node.cpp, a protobuf message in which every edge and every tag
-- lists the versions of the record that have it), the graph of such nodes (librange/graph), the
-- storage (librange/db/berkeley_*), the compiler of range expressions (librange/compiler), the read
-- and write API (librange/core), and the store daemon (stored). An operation on a node makes a new
-- version of its record: it moves everything that the current version has on to the next one, with
-- its own change, and stores the record with a checksum.
--
-- Files:
--   Base, Base/*        names of the libraries that are passed on; Boolean tests, lists, byte strings
--   Crc, Crc/Table      librange/util/crc32.cpp
--   Node/Versions       the scans of a list of versions (add_unique_new_version and others)
--   Node/Info           librange/db/nodeinfo.proto, and get_edges
--   Node/Update         update_all_edge_versions, update_tag_versions
--   Node/Edit           add_edge, remove_edge, set_type, add_graph_version, in memory
--   Node/Tags           tags, update_tag, delete_tag, in memory
--   Node/EdgeList, EdgeMoves, PlaceEdge, DropEdge      lemmas on one list of edges
--   Node/Values, Keys, KeyMoves, KeyList, SetTag, DropTag   lemmas on the keys and their values
--   Node/Invariant, Carry                              the well-formed record, and what is carried over
--   Node/AddEdge, RemoveEdge, ChangeTag, DeleteTag     the theorems on the operations
--   Node/Storage, Object  the node object: init_info, write_record, is_valid, commit, and every operation
--   Node/Stored, Step, Pairs, History, GraphVersions   the theorems on objects and the storage
--   Db/Keys, Change, Txn  librange/db/berkeley_dbcxx_db.cpp, berkeley_dbcxx_txn.cpp, changelist.proto
--   Db/Pending, Commit, Write                   the theorems on transactions
--   Db/Ranges           librange/db/berkeley_dbcxx_backend.cpp: the versions of the range
--   Base/Codec, Node/Codec serialisers and a storage in memory, for runs
--   Graph/Nodes         librange/graph/graphdb.cpp: get_node and create
--   Graph/Wanted        graphdb.cpp: set_wanted_version
--   Graph/Create, Visible, History, Shown       the theorems on them
--   Graph/Interface     node_interface.h, graph_interface.h: what the API reads of a graph at one version
--   Search/Loop         the search loops of read_api.cpp and expanding_visitor.cpp, on a queue or a stack
--   Search/Ends, Reach, Explored, More, Nearest   the theorems on searches
--   Compiler/Order, Sets, Handlers   librange/compiler/expanding_visitor.cpp: set operations, expand,
--                       regex_filter, prefix_child, key and brace expansion, on lists of children
--   Compiler/Sorting, Counts, Resolved, Unique  the theorems on them
--   Compiler/Sequence   sequences such as `h1..9`
--   Compiler/Digits, Sides, Count               the theorem on them
--   Compiler/Syntax, Admin, Visitor   librange/compiler/ast.h, and the visitor on whole expressions
--   Compiler/Faults, Sound, Admins              the theorems on the visitor
--   Base/Results        the exceptions of exceptions.h, graph_exceptions.h, compiler_exceptions.h
--   Api/Names, Lookup, Searches   librange/core/read_api.cpp: names, single nodes, the searches
--   Api/Sort            environment_topological_sort
--   Api/Ancestor        nearest_common_ancestor
--   Api/Turns, Meeting                          the theorem on it
--   Api/Expand          expand, expand_cluster, expand_env, expand_range_expression
--   Api/Versions        get_range_version, and the theorem on it
--   Api/Picks, Found, FirstKey, Visits, Orphans   the theorems on lookups and searches
--   Api/Frames, Rounds, Taken, Sorted, Roots, Collected, Topological   the theorem on the sort
--   Api/Action, Backend, Requests   what an operation of the write API works on, and its request to the
--                       store daemon (stored_message.cpp)
--   Api/Write/*         librange/core/write_api.cpp, by the kind of node
--   Api/Calls, Dispatch write_api_symtable, verify_request, and what a learner does with a request
--   Api/Checked, Sent, Coded, Thrown, Relay, Inside    the theorems on the write API
--   Paxos/Message, Accepter, Proposer, Learner, Quorum   librange/core/store.proto, stored/paxos.cpp,
--                       paxos_accepter.cpp, paxos_proposer.cpp, paxos_learner.cpp
--   Paxos/Taught, Votes, Agreement, Numbers, Retry, Learned      the theorems on them
--   */Tests, *Tests     runs, and the theorems at concrete records
--
-- Representation. Every loop over a list of versions runs from its last element to its first, so such
-- a list, and the versionmap of a key, stands here with the newest entry first; other lists are in
-- the order of the source. A string is a list of bytes, a uint64_t a number below 2 ^ 64 whose
-- addition is taken modulo 2 ^ 64; the theorems on a change of a record assume that one version is
-- left below 2 ^ 64. The loops over a record, a request or a history are recursions on lists and need
-- no fuel. Where two hash tables agree is said by lookups, since their order is not specified. A
-- function of the source that mutates a record returns the new record, or `none` where it returns
-- false and has changed nothing.
--
-- An object of a node works on a storage (GraphInstanceInterface) and the serialiser that protoc
-- generates: both are parameters, records of operations with what the code relies on (Node/Storage).
-- The call `add_edge(info.forward(), info.mutable_forward(), other)` is read with `mutable_forward`
-- evaluated first; the order is not specified, and the other one would hand over an empty list where
-- the record has not been loaded before. An object without an instance is left out.
--
-- Accepters share no state, so a set of them is a list of the requests that reach each; this covers any
-- loss, order and repetition of messages and any number of proposers. The accepted number is not
-- initialised in the source, so it is a parameter of each accepter. The loops of the proposer recurse
-- on what the network answers to each message; where the answers end the daemon shuts down.
--
-- The database handle is a parameter as well (Db/Change), a map that takes every record; the errors of
-- the handle, for which the code throws, are left out. A transaction ends when its last reference goes,
-- which is the operation `end_txn`; leaving it by an exception is `abort`.
--
-- The algorithms of the standard library (sort, set_union, unique and others) are written out as loops
-- that the standard describes; a regular expression is a parameter, the function that compiles it.
--
-- The API reads a graph at one version, which is a record of functions on the objects of nodes; two
-- objects of one name are taken to be loaded from the same record (Api/Found, Alike). A loop that goes
-- through a graph is a recursion on fuel. A search takes each node that waits once, so the nodes that
-- wait and the edges of those not visited are enough; for the graph of a search this is one more than
-- its edges. The sort takes a node from its stack once and each edge once, for which twice the edges
-- and one are enough; the two searches for a common ancestor need the fuel of both. A sequence counts
-- in uint32_t, so 2 ^ 32 rounds are enough where it ends.
--
-- An exception is its class and its text. The classes null_pointer, undefined and out_of_fuel are of the
-- model: a null pointer is followed, the behaviour is undefined, or the fuel is used up. A few texts
-- leave out what is for the reader only. A transaction is a scope that is told whether an exception
-- ends it. The two graphs that the write API changes, regular expressions, lexical_cast and the
-- delivery of messages are parameters; errors of the database are left out.
--
-- Not modelled: logging, locks, the wire format of protobuf, sockets, threads, and the generated
-- scanner and parser. Of the graph, cursors and iteration, the removal of a node, and the versions of
-- a transaction; of the storage, the log of transactions. The functions of range expressions and the
-- visitor that writes JSON only call what is modelled here or print it.
pub mod Api
pub mod Base
pub mod Compiler
pub mod Crc
pub mod Db
pub mod Graph
pub mod Node
pub mod Paxos
pub mod Search
