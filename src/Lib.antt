-- ===== src/Lib.antt =====
-- The process and thread synchronisation of `unixipc`: POSIX message queues on a memory-mapped file
-- (unixipc/my_pxmsg_mmap), semaphores on a mapped file (unixipc/my_pxsem_mmap), on System V
-- (unixipc/my_pxsem_svsem) and on a FIFO (unixipc/my_pxsem_fifo), and read-write locks
-- (unixipc/my_rwlock, unixipc/my_rwlock_cancel); two programs of unixipc/pxsem, the producers and
-- consumers of prodcons4.c and the two threads of mycat2.c; the loops round read and write of the
-- network programs (unixNetV1/lib: readn.c, writen.c, readline.c); four network programs, the
-- client over non-blocking descriptors and the client with several connections of
-- unixNetV1/nonblock, and the pool of threads and the pool of processes of unixNetV1/server; ping
-- (item/ping/ping.c); and the search for Chinese text in sources (item/check_zh_cn/zh_str_check.c).
-- All are definitions that compute, with theorems about them. The repository collects many C
-- programs that do not call one another; each part stands alone.
--
-- Message queues. A queue is a file that every process maps. It begins with a header (the sizes,
-- the counts, the registered process) and holds `mq_maxmsg` slots. Two chains of byte indices go
-- through the slots: the messages, highest priority first, and the free slots.
-- `MessageQueue.Types.Queue` is the mapped file: `slot i` is the `struct mymsg_hdr` at index `i`
-- with the bytes behind it, and `next i` its `msg_next`. The code casts the addresses of `mqh_head`
-- and `mqh_free` to message headers, so both are words of `next` too: `next head_at` and `next
-- free_at`.
--   MessageQueue/Types, Send, Receive, Control   mqueue.h, mq_send.c, mq_receive.c, and
--       mq_getattr.c, mq_setattr.c, mq_notify.c, mq_close.c
--   MessageQueue/Create                          mq_open.c: one pass is what happens between two
--       visits of the label `again`
--   MessageQueue/Spec                            the queue as a bounded list sorted by priority
--   MessageQueue/Links, Invariant                the chains, and what a well-formed file is
--   MessageQueue/SendLaws, SendCalls, ReceiveLaws, ReceiveCalls, ControlLaws, Run
--                                                the calls against that specification
--   MessageQueue/Create/Layout, Protocol, Waiting   the new file, and the creation protocol
-- A call takes what the calls into the system answer as arguments: `lock` is the result of
-- pthread_mutex_lock, `wakes` the states in which the loop around pthread_cond_wait finds the file
-- (the other processes may have done anything in between), `Answers` what open, mmap, stat and the
-- initialisers return in one pass of mymq_open. A call that never returns is a value of its own:
-- `sleeping` has used up its wake-ups, `looping` the fuel of the walk along the messages. The fuel
-- is `mq_maxmsg + 1`; in a well-formed file the walk visits at most `mq_maxmsg` slots, so this is
-- enough. Indices and counts are `long` in the code, bounded by the size of the file, which is
-- itself a `long`; they are natural numbers here. mymq_open puts no upper bound on the attributes:
-- `filesize` wraps at 2 ^ 64 as in the code, and a call whose free list leaves the file, or has more
-- links than an int counts, ends in `undefined`.
--
-- Read-write locks. `RwLock.Lock` is `pthread_rwlock_t` less the mutex and the condition variables.
--   RwLock           the calls of my_rwlock, with the results of the calls into the threads library
--   RwLock/Cancel    rdlock, wrlock and unlock of my_rwlock_cancel, with their cleanup handlers
--   RwLock/Threads   `n` threads that lock and unlock in any order, as a relation between states:
--       a step is what a thread does from taking the mutex until it releases it or waits
--   RwLock/Census, Invariant           the counts of the lock against what the threads do
--   RwLock/Safety, Calls               what follows for the threads, and the calls against the steps
-- The relation has spurious wake-ups. It has no failing wait and no cancelled thread; the calls of
-- RwLock and RwLock/Cancel have both.
--
-- Semaphores. `Semaphore.Sem` is `mysem_t` less the mutex and the condition variable; its count is
-- an unsigned int, and `increment` wraps round at 2 ^ 32.
--   Semaphore             sem_post.c, sem_wait.c, sem_trywait.c, sem_getvalue.c, sem_close.c
--   Semaphore/Open        sem_open.c, by passes; it counts the mappings to which no pointer is left
--   Semaphore/Open/Laws   how it ends
--   Semaphore/Threads     `n` threads that wait and post in any order, as a relation between states
--   Semaphore/Invariant, Wakeups, Calls   the units, the sleepers, and the calls one by one
-- The relation lets any thread post that does not wait, and wakes sleepers for no reason. SystemV
-- is sem_open.c of unixipc/my_pxsem_svsem, which gets a System V semaphore set; the sets of the
-- system are a function from their identifiers. SystemV/Laws, Kept and Removal say how it ends, and
-- what becomes of the sets when no other process makes or removes one meanwhile. SystemV/Calls has the other calls; semop is a parameter, a function of the value of
-- the set, and `IsSemop` its documented behaviour. SharedFile is the loop in which mymq_open and
-- mysem_open wait for the creator of a file.
--
-- FifoSem is my_pxsem_fifo: a unit is a byte in the FIFO. The kernel's FIFO is a parameter, `Pipe`,
-- with `IsPipe` its documented behaviour; a close frees its descriptor. FifoSem/Laws is about both mysem_open and the calls.
--
-- Producers and consumers. Prodcons is produce and consume of unixipc/pxsem/prodcons4.c, step by
-- step between their calls of the semaphores. Prodcons/Threads is the relation of all the threads,
-- started as main starts them; Prodcons/Invariant, Steps and Counts what holds while they run, and
-- Prodcons/Safety, Moves, Progress and Ends what follows. main's arguments are the parameters.
-- Mycat is produce and consume of unixipc/pxsem/mycat2.c in the same way, a buffer being its first
-- `n` bytes. What Read gives is a choice of Mycat/Threads; Read and Write end the process on an
-- error. Mycat/Invariant, Steps and Writes hold the invariant, Mycat/Safety and Progress what
-- follows.
--
-- Streams. StreamIo has readn and writen, StreamIo/Lines my_read, readline and readlinebuf. The
-- descriptor is a parameter: `Reader` and `Writer` are the kernel's read and write on states of any
-- type, with what they promise as laws. A bound on the signals that interrupt a call makes the
-- loops end: the rounds are one for each byte and each signal. An error of a loop is one that the
-- kernel has answered (`IsReadError`), which EINTR is not. The static buffer of readline.c is
-- used with one descriptor. StreamIo/Laws, Writing, Lines/Feed and Lines/Laws are the proofs.
--
-- Network programs. StrCli is str_cli of strclinonb.c: `round` is one pass of its loop, `Kernel`
-- what select, read and write answer in it. `Client` has the two buffers, and the bytes that have
-- passed each descriptor. StrCli/Buffers is about a buffer, Rounds about the parts of a round,
-- Safety and Drains what follows. ThreadPool is the loop of main in serv08.c and of thread_main in
-- pthread08.c. ThreadPool/Threads is the relation of main and `n` threads, with wake-ups for no
-- reason; Invariant, Steps and Workers hold the invariant, Safety and Progress what follows;
-- Refines sets the ring against a queue. The program ends in `quitting`. ProcessPool is the loop of
-- main in serv05.c and of child_main in child05.c. ProcessPool/Processes is the relation of the
-- parent and `n` children, which do not end; Invariant, Children and Parent hold the invariant, and
-- Safety what follows. WebClient is main of web.c with start_connect and write_get_cmd; a step is
-- one test of a loop with the body behind it. WebClient/Steps is the relation, in which Socket
-- gives descriptors that are not open; Counters is about the counters, Watch, Events and Opens
-- about the descriptor sets. A failure of Host_serv, Socket or Fcntl, which ends the program, is
-- left out.
--
-- ping. Ping has the checksum, the times, the packets and a round of each thread; words are
-- little-endian, and times are after 1970. Ping/Checksum, Times and Packets are about the
-- functions, Ping/Threads is the relation of the two threads, the signal and the network,
-- with the packets sent and answered in a run, Ping/Counts what follows. The sum of cal_chksum is an int: `sum_words-bounded` keeps it in range
-- for packets up to 64 KB. Ping/Main is main, with set_dest_sock_addr and ping_stats_show. The
-- printing of single packets and the options of the socket are not modelled.
--
-- Sources. ZhCheck is zh_str_check.c, with the memory as a function from addresses and pointers as
-- addresses: ZhCheck the functions for C and Lua, ZhCheck/Python those for Python, ZhCheck/Check
-- check_zh_cn and main. ZhCheck/Lexer says what a comment is, on lists of bytes; ZhCheck/Refines
-- sets the removal of C comments against it. The loops have `size + 1` rounds, and go on by a byte
-- at least in each. The code looks one byte behind the buffer, in which no slash and no star must
-- stand (`IsQuiet`). A char is signed. The files are arguments.
--
-- Not modelled: the wrappers that end the process on an error (`Mymq_...`, `Mysem_...`,
-- `Pthread_rwlock_...`), the unlinks of my_pxmsg_mmap and my_pxsem_mmap, one call of unlink each,
-- the bytes of the mutexes and condition variables, permissions (the mode of a file is the bit
-- S_IXUSR alone), and the other programs of the repository.
pub mod Base
pub mod FifoSem
pub mod MessageQueue
pub mod Mycat
pub mod Ping
pub mod ProcessPool
pub mod Prodcons
pub mod RwLock
pub mod Semaphore
pub mod SharedFile
pub mod StrCli
pub mod StreamIo
pub mod SystemV
pub mod ThreadPool
pub mod WebClient
pub mod ZhCheck
