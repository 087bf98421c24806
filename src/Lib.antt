-- ===== src/Lib.antt =====
-- Clearfall OS: a model of the kernel's core data structures and their correctness. Paths are from
-- the repository's root. Each part is one module that holds the data and the operations, and below
-- it one module for each thing that is proved of it; the module Examples of a part runs it on
-- concrete states.
--
-- The parts meet in few places. Descriptors hold references to open files and files hold vnodes
-- (Files). Reads from a terminal take the lines that the line discipline finished (Line). Signals
-- wait in a set and a queue of each thread (Signals, SignalQueue), paths lead to vnodes (Paths),
-- and threads that can run wait in the scheduler's run queue (Scheduler). Services find each
-- other's ports by name and send messages (Ipc). All memory comes in frames (Pmm), which the heap
-- cuts into blocks (Heap). File systems read and write registered block devices (Block), and a
-- disk's partitions are such devices (Partition).
--
-- Base: Boolean tests and lists over the native numbers, an `int` (Int), strings (Bytes), the
--   kernel's error codes (Errno, include/shared/libc/errno.h), and the outcome of code that may
--   leave its memory: `ok`, `fault`, or `stuck` for a loop that is out of rounds.
-- Pmm: src/kernel/mm/pmm.c. `frame_bitmap` is a list of words of 32 bits, `pmm_init` is `init`,
--   `pmm_alloc_frame` is `alloc_frame`, and so on; `align_up` and `align_down` are those of
--   src/shared/libc/asm/math.asm. u32 sums wrap. The loops over addresses have fuel, end / 4096 + 2
--   rounds, which is enough as each round moves by a page.
-- Heap: src/kernel/mm/heap.c. The chunks are a list in link order, each with its address; a
--   pointer to a header that is not in the list is a `fault`; payload bytes are a function from
--   addresses; where the page count wraps, the header that `malloc` writes behind the end of the
--   heap stands in the list and is no `fault`; pages come from Pmm, and what `vmm_map_page` is asked
--   for is a list. The growth by pages is recursion on their number.
-- SignalQueue: src/kernel/syscall/signal/queue.c and its types in include/kernel/signal/signal.h.
--   The intrusive lists are lists of pool indices in link order.
-- Ipc: src/kernel/ipc/ipc.c. Ports are cells of a store; a pointer to a cell that was freed is a
--   `fault`. What the allocator returns is an argument of the operations that allocate.
-- ThreadQueue: src/kernel/sched/queue.c, a queue of threads that the Makefile leaves out of the
--   build and that the scheduler does not use: src/kernel/sched/sched.c keeps its own run queue.
--   Threads are cells of a store, of which `next` and `queued` are kept. The walk of `remove` takes
--   its number of rounds as an argument; each round moves on by one thread.
-- Block: src/kernel/fs/block/blockdev.c. The registry is the list of devices; the driver's `read`
--   and `write` are fields of a device.
-- Paths: src/kernel/fs/vfs/lookup.c. A path is the list of its bytes before the NUL and a cursor
--   is the rest of it; vnodes are addresses, and their fields and the file systems' `lookup` are a
--   record of functions (Vnodes). The loops have one round for each byte of the path and one more,
--   which is enough as a round that goes on moves the cursor.
-- Signals: src/kernel/syscall/signal/signal.c and the sets of include/kernel/signal/signal.h. A
--   set is two words of 32 bits, each the list of its bits; the calls of the real-time queue are
--   those of SignalQueue.
-- Scheduler: src/kernel/sched/sched.c, and `thread_sleep` and `thread_exit` of thread.c. The run
--   queue and the sleep queue are the lists of threads in link order; switches of stacks, page
--   directories and contexts are a list of effects. `g_pit_ticks` is a number that the timer's
--   events set.
-- Partition: src/kernel/fs/block/partition.c. The four slots are a list, where a slot is there
--   once its device has a name; the addresses of the slots' devices are an argument, and a
--   partition's driver is the two functions of the file over the disk's.
-- Files: src/kernel/fs/vfs/fd.c, file.c, ref.c, vnode.c and `vfs_open_vnode` of vfs.c. A table is
--   passed by value, so that the tests for a NULL table are left out; of `struct file` the vnode,
--   the offset and the count are kept. The vnode's `read` and `write` are arguments. The `int`
--   reference counts are numbers without a bound, so that an overflow past 2 ^ 31 references is left
--   out.
-- Line: src/kernel/drivers/input/line.c. The arrays of 256 bytes are lists of that length; calls
--   of the terminal, of the signals and of the scheduler are a list of effects; the key events that
--   arrive while a reader waits are an argument of `read`. Line.Spec is the editor over texts that
--   the arrays show (Line.View).
--
-- Not modelled: the file systems, mounts, the virtual memory, the network, the loaders, the system
-- calls, the drivers other than the line discipline, the processor's tables, the C library, the
-- shell and the user programs; and concurrency beyond the key events during a read, since the code
-- modelled runs on one processor and takes no locks.
pub mod Base
pub mod Block
pub mod Files
pub mod Heap
pub mod Ipc
pub mod Line
pub mod Partition
pub mod Paths
pub mod Pmm
pub mod Scheduler
pub mod SignalQueue
pub mod Signals
pub mod ThreadQueue
