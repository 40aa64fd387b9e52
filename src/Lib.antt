-- ===== src/Lib.antt =====
-- PowerOS for the Raspberry Pi: the lists, memory, tasks, ports, semaphores, interrupts, libraries, devices and ROM
-- tags of its exec library, its timer device, and its utility library.
--
-- exec (src/kickstart/lib.exec) is a kernel in the manner of the Amiga's. Its tasks, ports, devices,
-- semaphores and memory areas all hang in doubly linked lists; memory comes from free lists of 8-byte
-- units, one per memory area; a device takes requests that it queues in such a list and answers them
-- as messages. timer.device (src/kickstart/dev.timer) is the device whose interrupt drives the delays.
--
-- ExecList models src/kickstart/lib.exec/list.c over the words of a memory. `new_list`, `add_head`,
-- `add_tail`, `insert`, `enqueue`, `remove`, `rem_head`, `rem_tail` and `find_name` are the functions
-- lib_NewList to lib_FindName. ExecList.Chain says what a list in memory stands for, Relink and Gap
-- how a link of one node changes it, Queue what the operations mean on sequences; Ops, Removal and
-- Walk are about the operations.
-- Memory models lib_AddMemList (its header and first chunks), lib_Allocate and lib_Deallocate of
-- src/kickstart/lib.exec/memory.c. Memory.FreeList says what a free list stands for, FirstFit and
-- Release describe on the chunks alone what Allocate and Deallocate describe in memory; Init is
-- about a new area, and RoundTrip about an allocation that is given back. Memory.Areas has lib_AllocVec and
-- lib_FreeVec over the list of areas, and Lost is about both on a new area.
-- Tasks models the tasks of exec: tasks.c, the scheduler schedule.c, the signals of messages.c, and Forbid and
-- Permit of ables.c. Its lists TaskReady and TaskWait are sequences ordered as Queue says. Tasks.Consistent
-- says which states of the tasks and lists are right, Switch is about the scheduler, Steps about the
-- operations as steps from one state to the next, and Signals about the bits of Signal, Wait, AllocSignal
-- and FreeSignal.
-- Semaphores models semaphores.c. Nesting is about one task, Handover about a semaphore that is passed on
-- to the next task, and Waiting about the Wait of a task that has to wait, which is Wait of Tasks.
-- Ports models ports.c, the messages of messages.c, and the requests of io.c, where the BeginIO of the device is
-- an argument. Ports.Messages is about the order of messages and the signals of a port, Waiting about WaitPort. The
-- linked list that mp_MsgList is stands for a sequence of messages in no other list; ExecList.Fifo is about it.
-- Irq models intserver.c: the lists of servers and the dispatch of an interrupt, where the handlers are an
-- argument. Irq.Bits is about the number of the pending bit, Irq.Serve about which servers run.
-- Timer models src/kickstart/dev.timer. Timer.Time has the arithmetic of timerfuncs.c and the FastAddTime
-- of _timerirq.c; Timer.Device has the requests of io.c and the interrupt Timer3IRQServer, with
-- Order, Interrupt and Requests about them.
-- Vectors models the jump tables below the base of a library: the loops of _functab.c and resident.c that install
-- them (Vectors.Install), and the tables of exec.library and utility.library against the macros of exec_funcs.h and
-- utility_funcs.h (Vectors.Exec, Vectors.Utility).
-- Libraries models library.c, devices.c, setfunction.c and _library.c of lib.exec. What a device has at its first
-- vectors is an interface, the record DevFuncs, whose laws are in Libraries.Laws; Drivers has what timer.device and
-- testdev.device put there. Counts is about the counts of opens, Errors about a unit that is not there, Listed about
-- the search in DevList, Sum about the checksum, Patched about SetFunction.
-- Residents models resident.c and initresidentcode.c: Scan is about the ROM tags that are found, Install about the
-- device that InitResident makes of one, its vectors and its place in DevList. AllocVec is an argument.
-- TestDev models src/kickstart/dev.test over Ports: its commands, and in Serve and Pass the task that serves its port.
-- Expansion models adddosnode.c and makedosnode.c of src/kickstart/lib.expansion over Libraries, Semaphores and the
-- strings of Util: Boot is about the list of boot nodes, Names about the node that is made.
-- Format models rawdoformat.c: Digits is about the numbers, Convert about each conversion, Run about a format.
-- Util models src/kickstart/lib.util. Util.Chars has the table of character classes, Util.Strings the strings
-- of cstr.c with Compare, Search and Copy about them, and Util.Tags the tag lists of tags.c, with Items about
-- what such a list stands for and Filter about FilterTagItems.
-- Base has the numbers, Boolean tests, UINT32 arithmetic and lists that the parts share.
--
-- Memory is a function from addresses to words, so that the stores of the C code are kept in their
-- order and may alias; what the theorems ask for is that the words of the structures differ. UINT32
-- arithmetic that may wrap is written with `% 2 ^ 32`; addresses are below 2 ^ 32. The loops over lists
-- and free lists take fuel, and one more than the number of nodes or chunks is enough. The loops that
-- normalise a time take 4295 rounds, since a UINT32 of microseconds has less than 4295 seconds. The
-- lists of the timer are sequences, which is what the lists of ExecList stand for. Interrupts are
-- disabled while the timer's lists change, so that its operations are one step each.
--
-- Signal sets and flags are functions from bit numbers to Boolean values. Saved contexts and stacks are the
-- machine's; a task switch is the change of `this_task`. A Wait to which Schedule comes back at once is followed up
-- to the next round of its loop, which would put the task into TaskWait a second time. IRQServer has 85 lists in the
-- source; in Irq it has one for every number.
--
-- The loops over strings and tag lists take fuel, and one more than the chars or items that they read is enough;
-- the loop of WaitPort needs 2.
--
-- The number loops of Format have room for 12 digits, which is one more than the buffer has. The loops of Vectors need
-- one more than the entries of the table, the formatter one more than the chars of the format and of each string.
--
-- Not modelled: TaskCreate, CreateIORequest, DeleteIORequest, CreateIntServer and CloneTagItems, which fill in
-- what AllocVec gives; CreateSysBase and the first tasks of exec; vsprintf.c and div64.c, which are
-- copies of code of Linux; the set-up of lib.expansion; the set-up of the task of testdev.device; the
-- registers of the board in raspi, which are input and output.
pub mod Base
pub mod ExecList
pub mod Irq
pub mod Memory
pub mod Tasks
pub mod Semaphores
pub mod Ports
pub mod Timer
pub mod Util
pub mod Vectors
pub mod Format
pub mod Libraries
pub mod Residents
pub mod TestDev
pub mod Expansion
