-- ===== src/Lib.antt =====
-- MattX, a single-system-image cluster of Linux kernels: processes move between nodes, and the kernel
-- module keeps what they left behind reachable. This library models the parts of the module that
-- carry its own protocol and bookkeeping, and proves what makes them correct.
--
-- The parts, and how they meet:
-- * Comm (mattx_comm.c): packets on TCP connections. Comm/Header is struct mattx_header; Comm/Receive
--   is mattx_recv_exact and mattx_receiver_loop; Comm/Send is mattx_comm_send and mattx_comm_send_ctrl;
--   Comm/Dispatch is mattx_register_handler and mattx_handle_message. Comm/Kernel states what the
--   kernel's socket calls promise; an instance of it is a parameter of all of these.
-- * Cluster (mattx_comm.c, mattx_sched.c, mattx_main.c): the heap of links, cluster_map and
--   cluster_load_table, changed by mattx_comm_connect, mattx_comm_disconnect, the accept loop,
--   handle_heartbeat, handle_load_update, the netlink commands join, leave and set_local_ip, and
--   mattx_exit. `step` is one such event, `run` a history of them. A join and a heartbeat hold no lock and
--   may sleep, so each is two events, and others may come between: mattx_nl_cmd_node_join is join_begin
--   and join_end, handle_heartbeat is heartbeat_begin and heartbeat_end. A teardown is one step, that
--   of the end of its wait.
-- * Registry (mattx_guest.c, and the watchers in mattx_balancer_loop of mattx_sched.c): the guests and
--   exports as an array and a count, the clock fixups, handle_process_exit, handle_kill_surrogate.
--   Effects are the calls of the kernel and the messages, in the order of the code.
-- * Sched (mattx_sched.c): the name lists, mattx_calc_local_load, mattx_find_candidate_task,
--   mattx_evaluate_and_balance, and one round of mattx_balancer_loop, which uses Registry.
-- * Dsm (mattx_fileio.c, mode 2): the home node's directory of pages (Dsm/Directory), a guest's copies
--   (Dsm/Guest, on the guests of Registry), the guest's faults (Dsm/Trap: mattx_dsm_fault is
--   dsm_fault_begin and dsm_fault_end, mattx_dsm_pfn_mkwrite is mkwrite_begin and mkwrite_end), and the
--   calls that wait for an answer (Dsm/Rpc). Each section of a kworker under the lock of the directory is a
--   step: mattx_dsm_fault_kworker is fault_begin, and where it waited for a flush fault_wake and downgrade,
--   then pump, of Dsm/Directory/Fault; mattx_vm1_shm_sync_kworker is sync_begin, sync_wake, downgrade_at
--   and sync_write of Dsm/Directory/Sync.
-- * Migr (mattx_migr.c): a process leaves its node. Migr/Blueprint is struct mattx_migration_req with the
--   parts that fill it, Migr/Gang the loop that finds and freezes all threads, Migr/Capture the two
--   captures, mattx_capture_and_send_state and mattx_capture_and_return_state, Migr/Pump
--   mattx_send_vma_data, Migr/Recall the recall and the expulsion, which work on the guests of Registry.
--   Migr/AddressSpace states what access_process_vm and find_vma promise.
-- * Import (mattx_import.c, and hijack_me of mattx_main.c): the other end. Import/Pages is
--   handle_page_transfer, Import/Threads the injection of the gang, Import/Stub and Import/Arrival
--   handle_migrate_req and handle_migrate_done, Import/Carver and Import/Return handle_return_blueprint
--   and handle_return_done. They change the guests, exports and clock fixups of Registry; the messages
--   of Migr/Pump are what Import/Pages handles.
-- * Vfs (mattx_fileio.c): the files of another node. Vfs/Disk is what the kernel's file system promises,
--   a parameter of the rest; Vfs/Wire the messages; Vfs/Home and Vfs/Readdir the node that has the
--   files, handle_vfs_x_req with the table mfs_open_files; Vfs/Calls the table of waiting calls, which is
--   Dsm/Rpc's, with handle_vfs_x_reply; Vfs/Client and Vfs/Ops the calls mattx_rpc_vfs_x, each with what
--   it does when it wakes (`_end`).
-- * Mattxfs (mattxfs/mattxfs.c): the cluster's file system, on the calls of Vfs. Mattxfs/Paths is
--   get_node_id_from_dentry and get_remote_path_from_dentry, Mattxfs/Files the operations of an open
--   file, Mattxfs/Listing both iterates, Mattxfs/Lookup both lookups and mattxfs_remote_create.
-- * Deputy (mattx_fileio.c): the home node serves the system calls of a guest on the files that stayed
--   there: handle_syscall_fwd, handle_sys_read_req, handle_sys_close_req, and the kworkers of open, lseek,
--   fsync and dup, on the files of Vfs/Disk, the exports of Registry and the tables of the deputies.
--   Deputy/Tables and Deputy/Descriptors are about one table, Deputy/Counted and Deputy/History about
--   references, Deputy/Opens and Deputy/Shared about open and dup.
-- * Base has the numbers, tests and lists that these share; Tests has concrete inputs.
--
-- Conventions: a u32 or an unsigned long wraps where the code's arithmetic can (the load, the
-- normalised load, jiffies, ids of calls); pids, nodes and addresses are numbers. A critical section
-- under a spinlock or a mutex is one step. `while` loops over a socket run on fuel: the number of bytes
-- asked for, since every call that goes on moves one byte at least; the watchers run on the number of
-- entries, since each turn removes one, so neither ever stops for lack of fuel. The receiver's
-- loop runs for a number of messages that is given.
--
-- The loop over the pages of an area runs on the number of its pages, which is enough for every area of
-- user memory; the scans of the gang on stabilize_retries, as in the code; the wait of an expulsion on
-- 302 polls, two more than fit in its time. A page of an area has its address in 64 bits.
--
-- SIGSTOP and SIGCONT act on the whole process of the thread they are sent to. An identity (Cred) that a
-- handler takes over is the kernel thread's with the caller's user and group ids: its capabilities and
-- other groups stay the thread's. The size of a packet wraps at 2^32, as the code's does.
--
-- A descriptor of a remote file and a position in it are not negative in Vfs, Mattxfs and Deputy; a byte is a
-- number, and the buffer of a caller is a list of the length it asked for.
--
-- Not modelled: the system call hooks (mattx_hooks.c), the other system calls that a deputy
-- serves (sockets, poll, epoll, statx, fstatfs, getdents64 and the like in mattx_fileio.c) and the guest's side of all of
-- them, the references that a request takes on tasks, the output of /proc (mattx_proc.c), the mount of
-- mattxfs, the daemon and the stub, which are mostly kernel glue or user-space I/O; of
-- Dsm the sweeper, and modes 1 and 3. Of a migration the waiting loops, the vDSO
-- transplant (disabled in the code), the debugging reads, and the reference counts of the import side
-- but for the task that is hijacked. An index into the pages of a segment is not checked in the
-- code; in the model an array of pages is a function, so what lies past its end is not described, and
-- neither is a blueprint whose thread_count is above the length of its array.
pub mod Base
pub mod Comm
pub mod Effects
pub mod Registry
pub mod Sched
pub mod Cluster
pub mod Dsm
pub mod Migr
pub mod Import
pub mod Vfs
pub mod Mattxfs
pub mod Deputy
pub mod Tests
