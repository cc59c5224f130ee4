-- ===== src/Lib.antt =====
-- Exercises on Linux processes, threads and inter-process communication: their programs, with their
-- shared state, their concurrent steps and their error paths. A part begins with its directory; its
-- other paths are in that directory. Strings has the C functions on strings that the programs call. Io
-- is what the programs with sockets share: they run on the results of their calls and leave the calls
-- with an effect and the lines that they print.
--
-- Restaurant is S10_IPC_Semafore. Two chefs fill two trays of ten slots in shared memory, and three
-- customers eat from them; each tray has a mutex and two counting semaphores. Restaurant/Shared is
-- include/shared.h and src/shared.c. Restaurant/Dishes is the one-shot functions of src/chef.c and
-- src/consumer.c: `none` is a semaphore that blocks. Restaurant/System is the endless loops
-- chef_vegan, chef_nonvegan, customer_vegan, customer_nonvegan and customer_hybrid as processes with
-- five stages, one for each semaphore call and one for the scanning loop in the critical section, and
-- the interleavings of the five processes that app/main.c forks. Restaurant/Invariant and its
-- children count, for each tray, the processes on their way. sleep, rand and printf leave no trace.
-- The status line of print_tray_status takes no lock, so the memory is given for each of its reads.
-- Restaurant/OneShot is the one-shot functions at trays at which no process is under way.
-- Restaurant/Main is the rest of app/main.c as a machine, call by call, on what fork returns, the times
-- at which it wakes, and Ctrl+C, which may come before signal, between two forks and between two calls
-- of cleanup_all, but not between a fork and the store of its result; the handler keeps SIGINT blocked.
-- Its calls of kill and waitpid are recorded, with what fork gave, -1 included; what they do is not.
-- Restaurant/Cleanup leads to Restaurant/Ending, how main ends.
--
-- Chat is S6_IPC_Socket/ex2_p2pchat. Chat/State is include/common.h: the nodes PeerConn in a heap of
-- addresses, live or freed, with the globals, and the record of what is printed, sent, closed and
-- joined. A read of a freed node is recorded; a NULL or wild pointer is `fault`. Chat/Connection and
-- Chat/Reap are src/connection.c, Chat/Receive its conn_recv_thread, Chat/Threads src/listener.c,
-- Chat/Command src/command.c, Chat/Main the command loop of app/main_p2pchat.c, Chat/Startup what
-- comes before it and get_local_ip of src/utils.c.
-- malloc, pthread_create, inet_pton, inet_ntop, socket, connect,
-- recv and send are parameters: their results are arguments. Where a command lets go of conn_mutex
-- and takes it again, the actions of the listener and of the receiving threads in between are a list
-- that is an argument too; where the listener waits, so are those of the receiving threads and of the
-- commands on the list, which Chat/Acts reads on cells. The steps of one hold of the lock, and add_connection with the start of
-- its thread, are not interleaved. The field `thread` of a new node is 0 until its thread is started.
-- A loop over the list takes fuel: more than the length of the list is enough, and reap_connections,
-- which begins again after each join, takes rounds as its theorems say.
-- Chat/Registry has the list of connections as a list of cells, Chat/Nodes, Chat/Removal, Chat/Lists
-- and Chat/Arrivals the operations on it, Chat/Reaping, Chat/Walk and Chat/Quiet reap_connections,
-- Chat/Listener listener_thread, Chat/Terminate, Chat/Connect, Chat/Send, Chat/Exit, Chat/Lines and
-- Chat/Ids the commands and their parsing. A pthread_join
-- is recorded as one that returns: each receiving thread is taken to end before it is joined, and
-- Chat/Program leaves the commands out whose joins would wait where no other thread acts. Chat/Joins is the joins beside the ends of these threads, since the join holds conn_mutex.
-- Chat/Exchange puts the commands of one peer and the receiving thread of the other together, with the
-- bytes of the messages in any pieces and the end of the conversation in a recv of its own. Chat/Goes, Chat/Rounds and Chat/Loop are a round of the command loop
-- where no other thread acts, Chat/Program the whole of main.
--
-- Buffer is S4_Thread/nConsumer.c. Buffer/Ring is the ring of five slots and the queue that it stands
-- for, Buffer/Workers the two producers and three consumers with their condition variables,
-- Buffer/Tally, Buffer/Invariant and Buffer/Turns what a turn does to the counts, Buffer/Outcome what
-- the threads achieve. A turn lasts from having the lock to giving it up. A thread may wake up
-- without a signal; a signal wakes one waiting thread of the schedule's choice.
--
-- MessageQueue is S8_Message_Queue/exercise_message_queue: MessageQueue/Tasks is task_dispatcher.c and
-- the buffer of task_worker.c, MessageQueue/Worker the rest of task_worker.c, with Ctrl+C, as a machine
-- beside the dispatchers. The POSIX queue is a parameter: mq_send and mq_receive on a type of queues,
-- with the list of messages that a queue holds; MessageQueue/Order says how they follow mq_overview.
-- MessageQueue/Steps and MessageQueue/Invariant lead to MessageQueue/Delivery, what becomes of a task.
-- A SIGINT comes between two steps; sleep leaves no trace.
--
-- Threads/RwLock is S4_Thread/ex4_rw_lock.c: five readers and two writers, each outside or inside the
-- read-write lock, which is two counters; a thread's work inside the lock is one step with giving it
-- up. Threads/Readers is what the lock gives. Threads/Mailbox is S4_Thread/ex3_condition_variable.c, a
-- producer and a consumer with one slot and one condition variable, Threads/Handover what becomes of
-- the numbers. Threads/Race is S4_Thread/ex2_race_condition_mutx.c: each load and each store of the
-- counter is one step, although C leaves such a race undefined; Race/Invariant, Race/Stages and
-- Race/Schedule lead to Race/Outcome, what it prints. Threads/Results is S4_Thread/fun_thread_join.c, with
-- each text told by its thread's number; Results/Invariant leads to Threads/Returns, what becomes of the
-- texts. A schedule of steps, here and in Signals and Processes, is Base/Schedules.
--
-- Sockets is S6_IPC_Socket/ex1_4sockets: Sockets/Tcp is ipv4_socket/stream_socket, Sockets/Udp
-- ipv4_socket/dgram_socket, Sockets/Stream unix_socket/stream_socket and Sockets/Datagram
-- unix_socket/dgram_socket, each the server and the client, with a function for each function of the
-- source. A loop runs over the list of what its reads give, and waits at the end of the list. A read that gives more than the buffer holds is undefined,
-- although the system never does that. A write on a stream is taken to be complete, as the code takes
-- it; prompts, and the notice that main has begun, are one line or left out. Sockets/Handles counts how
-- often a descriptor is open; Tcp/Release, Stream/Release and Datagram/Release are what the programs
-- close, and what they bind, listen on, connect and send on, an accept and a read leaving no event;
-- Tcp/Exchange, Udp/Answers and Datagram/Exchange what they say to each other.
--
-- Signals is S5_IPC_Signal: Signals/Counter is ex1_creat_run_signal.c and ex2_sigalrm_timer.c, on the
-- number of signals that are handled between two looks at the count, which is below 2^31;
-- Signals/Counting is when they exit. Signals/Pair is ex3_ipc_sigusr1.c as two processes with the
-- signals pending between them; Signals/Work and Signals/ChildSteps lead to Signals/Ends, how they end. Signals/Select is
-- ex4_select.c, on the signals that are handled in each round of its loop and what select gives;
-- Signals/Answers is what it prints.
--
-- Pipe is S7_Pipe_FIFO/ex1_pipe.c: Pipe/Table is the descriptors of a process and the calls pipe, close
-- and dup2 on them, Pipe/Shell the two children and the parent on the results of their calls, Pipe/Ends
-- what each of them holds; what ls and wc read and write is not modelled. The two waits of the parent are taken together.
--
-- Processes is S3_Process: Processes/Family is a parent and its child, each a list of what it is to do,
-- Processes/Programs fork.c, exec.c, orphan.c and zombie.c as such lists; the results of getenv and execl,
-- and how the command ends, are given. Processes/Invariant leads to Processes/Outcome, how they end.
--
-- Product is S9_IPC_Shared_Memory: Product/Shared is posix_shm_producer.c and posix_shm_consumer.c, with
-- scanf of a number and of a price, and printf of a price, as parameters, Product/Transfer what comes
-- through.
--
-- Not modelled: the set-up of shared memory beyond its success, the results of the sends, setsockopt,
-- SIGINT in a child of the restaurant before it ignores it, or in main between a fork and its store, and ex1_creat_thread.c of S4_Thread, which
-- only creates and joins two threads.
mod Base
pub mod Strings
pub mod Io
pub mod Restaurant
pub mod Chat
pub mod Buffer
pub mod MessageQueue
pub mod Threads
pub mod Sockets
pub mod Signals
pub mod Pipe
pub mod Processes
pub mod Product
