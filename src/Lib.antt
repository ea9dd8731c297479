-- ===== src/Lib.antt =====
-- XINU with virtual memory: the kernel's paging, heap, queues, scheduler, semaphores, messages,
-- timers, process creation and end, buffer pools and ports, its serial line, its network protocols,
-- its local file system, the string functions of its C library, and the lexical analyser of its
-- shell.
--
-- The program. A table of processes and a table of queues (include/process.h, include/queue.h)
-- carry the scheduler: the ready list is a queue in descending order of priority, the sleep
-- queue is a delta list, and each semaphore has a queue of the processes that wait on it. Kernel
-- memory comes from one free list (system/getmem.c, getstk.c, freemem.c). User processes have page
-- directories of their own, made by vcreate; vmalloc marks pages of a heap as allocated, the page
-- fault handler gives a page its frame at the first touch, and vfree and kill take pages and
-- frames back. Every function that reads or writes tables switches CR3 to the kernel's
-- directory first; resched switches it to that of the process that runs next. The clock handler
-- counts down the first delay of the sleep queue and wakes up what is due. Buffer pools and ports
-- keep linked lists in memory, and a semaphore for each list says how many items it has. The driver
-- of the serial line edits the line that is typed in a circular buffer, whose semaphore counts the
-- characters that a reader may take. Packets stand in buffers of a pool: netin takes one for each
-- frame and hands it to ARP or IP, which checks and converts its header and gives it to UDP or
-- ICMP; these put it into the circular queue of an endpoint, where a process waits for a message
-- that says so, and on the way out IP asks ARP for the address of the next hop. The file system
-- keeps a list of index blocks for each file, and lists of the free index and data blocks, on a
-- disk; an open file has one index block and one data block in memory, which are written back when
-- they have changed and the position moves away.
--
-- The files:
--   Prelude.antt and below: names of the libraries, Boolean tests, lists, integers and circular
--     buffers.
--   Paging/Memory, Machine: include/paging.h; memory as a function from the number of a 32-bit
--     word to an entry, CR3, and what the processor makes of an address (translate).
--   Paging/Init: initialize_page_table in system/initialize.c.
--   Paging/UserDir: initialize_user_page_dir in system/vcreate.c.
--   Paging/Count: the counters of system/utility_functions.c.
--   Paging/Handler: system/pagefault_handler.c; kill is an argument. Fault has its theorems.
--   Paging/Kill and below: kill_vm in system/kill.c.
--   Paging/Vfree and below: system/vfree.c.
--   Paging/Vmalloc and below: system/vmalloc.c. Tables has the repeated writes, Absent the round
--     at an entry that is not present, Single the search in one table, Multi the search over
--     several, Whole the loop and the function; the other files are about one case each.
--   Queue/Table: include/queue.h, system/queue.c, getitem.c, insert.c, insertd.c, newqueue.c;
--     Chain, Laws, Empty, Priority, Wakes and Delta see a queue as a list of processes.
--   Heap/Blocks: include/memory.h, system/getmem.c, getstk.c, freemem.c; the other files prove
--     what each does to the set of free bytes.
--   Process/State: include/process.h, semaphore.h, resched.h; Sched: system/resched.c, ready.c,
--     suspend.c, resume.c, chprio.c, unsleep.c; Semaphores: the sem*.c files, wait.c, signal.c
--     and signaln.c; Messages: send.c, receive.c, recvclr.c, recvtime.c; Timers: sleep.c, yield.c,
--     wakeup.c, clkhandler.c; Context: the stack of a new process in create.c and what ctxsw.S
--     takes from it; Create: create.c, vcreate.c, getprio.c, getpid.c; End: kill.c, exit.c. Ready,
--     Highest, Resume and Suspend have theorems on the ready list, Counts, Lines and Waiting on
--     semaphores, Many on signaln, Sleepers, Wakeup, Clock, Tick and Asleep on the sleep queue,
--     Stack and Created on new processes.
--   Pool/Buffers: include/bufpool.h, system/bufinit.c, mkbufpool.c, getbuf.c, freebuf.c; Pools and
--     Making have theorems on them. Pool/Ports: include/ports.h, system/ptinit.c, ptcreate.c,
--     ptsend.c, ptrecv.c; Clearing: ptcount.c, ptclear.c, ptreset.c, ptdelete.c; Chains, Mailbox,
--     Fifo and Delivery see a port as a queue of messages.
--   Text/Bytes: memory as a function from an address to a byte, and the strings in it; Measure:
--     lib/strlen.c, strnlen.c; Compare: strcmp.c, strncmp.c, memcmp.c; Copy: strcpy.c, strncpy.c,
--     strncat.c, memcpy.c, memset.c, bzero.c, with theorems in Filled; Search: strchr.c, strrchr.c,
--     strstr.c, with theorems in Substring; Integers: atoi.c, atol.c, abs.c, labs.c, rand.c,
--     with theorems in Numbers; Ctype: ctype_.c and include/ctype.h.
--   Tty/Control: include/tty.h, uart.h, device/tty/ttyinit.c, ttykickout.c, ttycontrol.c; Input:
--     ttyhandle_in.c, ttygetc.c; Output: ttyputc.c, ttyhandle_out.c. Lines has a line editor,
--     and Edits, Puts, Cooked and Editing compare the driver in cooked mode with it.
--   Net/Packet, State: include/net.h, udp.h, icmp.h, ip.h, arp.h and the byte order macros of
--     include/prototypes.h; Table, Reception, Udp: net/udp.c; Icmp, Ping: net/icmp.c; Checksum,
--     Ip: net/ip.c; ArpCache, Arp: net/arp.c; Input: net/net.c; Dotted: net/dot2ip.c. Endpoints,
--     Receive and Register have theorems on UDP, Carry, Wire and Arrival on a packet's way from
--     ip_out to its endpoint, Cache on ARP, Address on dot2ip.
--   Lfs/Disk, File, Position, Stream, Open, Create: include/lfilesys.h and device/lfs: the blocks
--     of the disk and the free lists; lfflush.c and lftruncate.c; lfsetup.c, lflgetc.c, lflputc.c
--     and lflseek.c; lflread.c, lflwrite.c, lflclose.c and lflcontrol.c; lfgetmode.c and lfsopen.c;
--     lfsinit.c, lflinit.c, lfscreate.c and lfsckfmt.c; all between the waits for their mutexes and
--     the signals. Chains and Truncate have theorems on truncation, Bytes on writing and reading at
--     one place. Contents has a sequence of bytes with a position and the calls on it; Blocks,
--     Stored, Loaded, Setup, Opened, Written, Models, Bytewise, Repeated, Freed, Emptied, Cut and
--     Refine compare the files with it. Formatted and Empty are about the lists on a new disk,
--     NewFile about a file that is created there, Reopened and OldFile about one that is closed and
--     opened again.
--   Shell/Lexan: shell/lexan.c and the constants of include/shell.h; Loops, Tokens and Bounds prove
--     that it stays inside its arrays.
--   The Tests modules and Lfs/Runs, with Lfs/Samples, run the theorems at concrete machines,
--     queues, heaps, systems and disks.
--
-- How the code is read. Numbers are natural numbers with the wrap of 32 bits written out where a
-- sum can pass it; keys, priorities and semaphore counts are integers. A pid or qid that is
-- negative is its bit pattern, so that EMPTY and SYSERR are 65535 in the queue table. A function
-- that may fail returns a flag or an Option next to the new state. Interrupts are disabled in
-- each function, so that a call is one step; a call of resched that switches ends the step. When
-- the wakeup in clkhandler switches, what follows it runs when the interrupted process runs again,
-- as a step of its own. lfsopen keeps the read and write bits of a mode in lfmode, and as in
-- device/lfs no operation looks at them, so that each mode allows reading and writing. The
-- functions that wait in the middle (receive, recvtime, getbuf, ptsend, ptrecv, ttygetc, ttyputc,
-- and the network functions that receive or take a buffer) or send a message there (kill) are two
-- or three definitions, one for each side of it. A pointer is its address, and NULL is 0; a pointer
-- into a buffer of the serial line is an index. A packet is a record of what the code reads in its
-- fields, in whichever byte order it is in; the UDP and the ICMP header have fields of their own.
--
-- Fuel. find_page runs on fuel because the source's loop has no end when the table area is full.
-- 1024 rounds reach every page of the area. The loops of insert and insertd end within one round
-- more than the queue has processes; resched gives 101 rounds for at most 100 processes. The
-- loops of vmalloc run on fuel because nothing in the source bounds one of them. wakeup gives as
-- many rounds as there are processes and one. The loops over a string run on fuel, and one round
-- more than the string has bytes is enough; so it is for lexan. ptclear takes the fuel for the
-- walk over a port's messages as an argument. lftruncate and lfsetup give
-- one round for each index block that they pass and one more; lfgetmode ends within four rounds,
-- since no character of a mode can stand twice, and lfsckfmt within one round more than there are
-- blocks. All other loops are structural.
--
-- Not modelled. What a context switch saves, ttyread and ttywrite, which repeat ttygetc and
-- ttyputc, the other device drivers, net_init, DNS, DHCP and TFTP, the rest of the shell, formatted
-- input and output, qsort; start-up code and the memory map. close, which calls a driver, what the
-- Ethernet driver reads and the result of its writes, and the function that disposes of a port's
-- message are arguments. tmp/ holds copies of files of system/ and include/. The wrap of a
-- semaphore count at 2^31 is left out, and so are pointers from 2 GB on in vfree.
pub mod Prelude
pub mod Paging
pub mod Queue
pub mod Heap
pub mod Process
pub mod Pool
pub mod Text
pub mod Tty
pub mod Net
pub mod Lfs
pub mod Shell
