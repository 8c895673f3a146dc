-- ===== src/Lib.antt =====
-- AdvancedOSLab: the programs of four assignments. Assignment_1/Project1/gtthreads/src is a thread
-- library with the program that runs on it; Assignment_2/Project2 is TinyFile, a server that compresses
-- files for its clients; Assignment_3/Project3/gtfs/src is GTFS, a layer over files with a log; and
-- Assignment_4/Project4/gtstore/src is GTStore, a replicated key-value store.
--
-- The thread library runs many uthreads on a few kthreads. A kthread has two run queues, one of active
-- and one of expired uthreads; `uthread_schedule` puts the running uthread away, asks
-- `sched_find_best_uthread` for the next and jumps to it. `uthread_create` queues a new uthread at a
-- kthread that `ksched_find_target` chooses, and `ksched_priority` passes the timer signal on. The
-- matrix program creates 128 uthreads and writes their times to two files. The TinyFile server keeps
-- its clients in a list linked in both directions, and one thread takes the messages that change it. A
-- client hands a file to a worker in an entry of shared memory. GTFS keeps pending writes in maps in
-- memory; a sync appends a line to the log of the file and writes to the file, and the log is replayed
-- when a file is opened or the directory cleaned. In GTStore the manager numbers the storage nodes and
-- tells each its replicas; a client asks the manager for the nodes, chooses one by the sum of the
-- characters of the key, and goes on to the replicas if it does not answer.
--
-- Which file models what (paths below Assignment_1/Project1/gtthreads/src, but for the last ones):
--   Prelude      numbers, lists, integers and arrays over the native numbers, and Outcome: what a C
--                call comes to (a value, a failed assertion, undefined behaviour, a lock waited for
--                for ever, an exit)
--   Bits         gt_bitops.h: SET_BIT, RESET_BIT, IS_BIT_SET, LOWEST_BIT_SET
--   TailQueue    the interface of gt_tailq.h, a copy of FreeBSD's queue.h: a parameter of the model,
--                met by the list
--   Uthread      gt_uthread.h: uthread_struct; a pointer is a number, the memory a function of it
--   Runqueue     gt_pq.h and gt_pq.c: runqueue_t; add is __add_to_runqueue, rem is
--                __rem_from_runqueue, best the search through the masks; IsValid says what counters
--                and masks tell of the lists
--   Spinlock     gt_spinlock.c: the calls of one thread, and in Threads the steps of any number of them
--   Kthread      gt_kthread.h: the contexts, kthread_cpu_map and ksched_shared_info, one World
--   Sched        gt_pq.c: add_to_runqueue to sched_find_best_uthread; steal is its load balancing
--                loop, switch_active what follows an empty active run queue
--   Schedule     gt_uthread.c: uthread_schedule in the parts put_away (charge, retire, put_back),
--                quit and resume; uthread_init_on is uthread_init; gt_yield; begin_task and finish
--                are the start and the end of uthread_context_func
--   Create       gt_uthread.c and gt_kthread.c: uthread_create, ksched_find_target, and relay, the
--                loop of ksched_priority
--   Startup      gt_kthread.c: kthread_init, and gtthread_app_init from the first kthread to the wait for
--                all of them
--   Matrix, Csv  gt_matrix.c: generate_matrix, uthread_mulmat, parse_args, main, write_to_csv
--   Clients      Assignment_2/Project2/include/tinyfile/server.h and src/server/server.c: the nodes
--                in memory, append_client_node_to_tail, find_current_client_node, remove_client_node
--   Registration Assignment_2/Project2/src/server/server.c: handle is one message of
--                register_client_handler
--   Entries      Assignment_2/Project2/src/client/client.c: find_and_set_shared_memory_entry_index and
--                wait_response_from_server; finish_entry is the end of handle_message in server.c;
--                Protocol has the accesses of all threads and workers as steps (find, send, receive,
--                finish, collect), Calls communicate_file_sync and communicate_file_async
--   Compress     Assignment_2/Project2/src/server/server.c: compress_file and handle_message; snappy-c,
--                a submodule, is the parameter Snappy
--   Text, Disk   strings as their bytes and files as a function of their path, with the calls of the
--                C++ library and the system on them; Os is what the system answers
--   Log          Assignment_3/Project3/gtfs/src/gtfs.cpp: the lines of a log and sync_log_to_file
--   Gtfs         gtfs.hpp and gtfs.cpp of the same directory: the global maps as one State, gtfs_init,
--                gtfs_clean and gtfs_open_file; in Gtfs/Calls the calls on files and writes; a file_t is
--                a number, the memory of them a function of it, and a data pointer a number
--   Gtstore      Assignment_4/Project4/gtstore/src: Storage, Manager and Client model storage.cpp,
--                manager.cpp and client.cpp, each message with its answer; Delivery has
--                the nodes together, Cluster a client with them
--   Tests        the theorems applied to small states
--
-- Numbers: `unsigned int` counters wrap at 2 ^ 32, last_ugroup_kthread at 2 ^ 16; credits are
-- integers, which stay far from the bounds of `int`. Times are microseconds. The `float` of the
-- deduction is taken as exact, which it is for the few credits that a uthread can have. Offsets and
-- lengths in GTFS are not negative and their sums fit `int`; `stoi` throws out of the range of `int`,
-- and an exception that is not caught is `aborted`. The hash of GTStore is taken modulo 2 ^ 64.
-- Loops: the counted ones are recursion on the rounds to go, as many as the C loop has at most. The
-- loop of ksched_find_target has sixteen rounds, one for each entry of the map: if none of them
-- finds a kthread, the C loop never ends, and the model says `undefined`. The loops over the client
-- list take their rounds as an argument; as many as the list is long, and one more for the search,
-- are enough. The loops of GTFS and GTStore are recursion on the lists and texts that they go through;
-- the digits of a number are made on fuel, one more than the number, which are enough.
-- One kthread runs at a time, but in Spinlock.Threads: a lock that is taken is waited for in vain.
-- The requests of TinyFile interleave in Entries.Protocol; a call takes what the other threads do
-- in between as an argument, and the async call looks for an entry as many times as its rounds say.
-- GTFS is one process with one thread. The nodes of GTStore handle one message after the other.
-- Readings of the clock, the allocator's answers and the success of system calls are arguments; so
-- is what a node answers to a client, until Cluster gives the nodes, and which sockets connect.
-- Messages of GTStore are shorter than the buffers that take them and hold no zero.
--
-- Not modelled: signals and contexts beyond the jump that is taken, the printed messages, the
-- stacks of kthreads and their end, gt_signal.c, the co-scheduling code that the Makefile leaves
-- out; the start and end of client and server of TinyFile and its command lines; the sockets of
-- GTStore, its test program, and the plots.
pub mod Prelude
pub mod Bits
pub mod TailQueue
pub mod Tests
pub mod Uthread
pub mod Runqueue
pub mod Spinlock
pub mod Kthread
pub mod Sched
pub mod Schedule
pub mod Create
pub mod Startup
pub mod Csv
pub mod Clients
pub mod Registration
pub mod Entries
pub mod Compress
pub mod Matrix
pub mod Text
pub mod Disk
pub mod Log
pub mod Gtfs
pub mod Gtstore
