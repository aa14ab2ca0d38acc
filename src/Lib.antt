-- ===== src/Lib.antt =====
-- Verification of ribabari, a simulator of an operating system kernel.
--
-- The program is a kernel with three threads around it: the CPU thread fetches and evaluates the
-- instructions of the process that is scheduled, the disk thread moves an arm over the tracks and
-- serves requests, and the menu creates processes from synthetic programs; five views show what happens. The
-- CPU calls the kernel (sysCall, interruptControl), and the kernel calls the scheduler, the
-- semaphores, the segment table, the disk and the file table. The disk calls the kernel back when a
-- request is done, which unblocks its process.
--
-- The files and what they model:
--   Prelude       integers of C (`int` faults outside of 32 bits), lists, and `Run`, the outcomes
--                 of a call: it returns, it exits, it hangs, or its behaviour is undefined
--   LinkedList    tools/list.c, as the sequence of the contents from the head to the tail, which the
--                 other parts use, and as doubly linked nodes in a heap (LinkedList/Nodes)
--   Process       process/process.h and process/process.c: the PCB, and the heap of the processes
--   Log           terminal/log.c and terminal/log.h, and the posts to the views' semaphores
--   Text          the C library's fgets, atoi and strtok, on bytes, as the parser uses them
--   Sched         sched/sched.c: scheduler_init, schedule_process, schedule_unblock_process
--   Semaphore     semaphore/semaphore.c: the table, semaphore_P and semaphore_V
--   Instruction   process/instruction.h: opcodes and instructions
--   Program       process/instruction.c and the parser in process/process.c: instr_parse, read_code,
--                 read_semaphores, parse_synthetic_program
--   Memory        memory/memory.c: mem_req_load, segment_free, memory_page_swap and what they call
--   Disk          disk/disk.c: disk_request and the loop of the disk thread
--   File          file/file.c: the requests to open, read, write and close
--   Kernel        kernel/kernel.c and io/print.c: sysCall, interruptControl and eval, with
--                 process_create (Kernel/Create) and process_finish (Kernel/Finish)
--                 Kernel/Step has the CPU thread, the disk thread and the menu in turn: an instruction
--                 of the CPU whole, the end of a quantum or of a process, a round of the disk, and
--                 the creation of a process are a step each
--   Cpu           cpu/cpu.c: the loop of the CPU thread, a turn at a time; a turn is given whether the
--                 second of the last instruction has passed on the clock
--   Terminal      terminal/terminal.c: sem_blocked_count, max_seg_size and get_process_sid, by which the
--                 views read the kernel; the lines and titles of the views (Terminal/Lines, Titles), the
--                 loop of the disk, I/O and acquisition views (Reader, Refresh), the process view
--                 (ProcessView), the memory view (MemoryView), the main menu (Menu) and the places of the
--                 windows (Layout)
--   Start         main.c: the order of the initialisers, and the state in which the threads start
--   Tests         concrete states, and the theorems at them
-- A file beside these in a folder of the same name holds the theorems about that part. The names of
-- functions and fields are those of the source in snake case (sysCall is `sys_call`, semaphore_P keeps
-- its name); the parameters keep their order where the C function has no hidden state.
--
-- How the state is carried over. A `process_t *` is a number, 0 for NULL, and the heap of processes
-- is a function from these numbers to the process or to nothing, if it was freed; so two lists that
-- hold the same pointer share the process. Segments, inodes, semaphores and requests are referred to
-- by one list only, which holds them. A function of C that changes an object returns the changed
-- one. Fresh memory that was not written is `none`, and reading it is a fault, as are the overflow of
-- an `int`, a NULL or freed process, and an index outside of an array. Counters that only grow, track
-- numbers of the arm, positions and array indexes are natural numbers; every other `int` is an
-- integer that is checked at each operation. What the code assumes of the rest of the system is
-- a parameter: `Libc` holds rand, RAND_MAX, time and the angular velocity computed with libm. The
-- views' semaphores, the draws of rand and the readings of time are counters of the record `Host`.
--
-- Interfaces. semaphore_P and semaphore_V get their sleep and wakeup functions from the kernel; the
-- record `Blocking` lists these with the laws that the semaphores need, Kernel.Blocking shows that the
-- kernel's functions have them, and Semaphore.Balance uses only the record.
--
-- Bounds. The loops of the source go over lists, over the instructions of a program or over the pages
-- of a segment, and need no fuel. Only the loops over fgets have fuel, the length of the file, since
-- every line takes a byte at least. The CPU loop
-- and the disk loop do not end in the source, and the model has their bodies as steps; `turn` and
-- `rounds` of Disk.Served repeat the disk's, with a turn of the other threads before each.
--
-- The loops of list_search and list_free over the nodes have fuel too, and one turn more than the list
-- has nodes is enough.
--
-- The views. A view is a thread that walks over a log list while the other threads append to it, so its
-- loop is a state machine with a step for each stretch between two accesses to the list, and a list
-- of moves, appends, posts and steps of the view, is a run of all of them. A step at a semaphore
-- without a post changes nothing. The loop of the menu has fuel; it takes a key in each round, so that
-- more fuel than keys is enough. Where it waits for a key or a line that does not come, the run hangs. The keys, the typed lines, the menu of curses with its current item,
-- and the files are parameters.
--
-- What is not modelled. Each call of the kernel runs without another thread in between, as under the
-- mutexes of the source; races outside of them are not modelled, nor is malloc that returns NULL, but for
-- the nodes of a list. Two threads may append to the I/O log at once; the model takes an append as one
-- step. What only draws on the screen is left out: colours, boxes, refreshes, and the freeing of windows
-- and menus. The text of the percentage of memory in use and the share of its pages that
-- a process has passed are computed in double, and are parameters.
pub mod Prelude
pub mod LinkedList
pub mod Process
pub mod Log
pub mod Text
pub mod Sched
pub mod Semaphore
pub mod Instruction
pub mod Program
pub mod Memory
pub mod Disk
pub mod File
pub mod Kernel
pub mod Cpu
pub mod Terminal
pub mod Start
mod Tests
