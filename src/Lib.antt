-- ===== src/Lib.antt =====
-- PKE, a proxy kernel for RISC-V: its memory manager, its page tables, its processes and their
-- scheduler, the page-fault handler and the system calls, its RAM disk, file system and open files,
-- and the string functions and the shell that run on it.
--
-- Machine: the state of the kernel is the record `Kernel` (Machine/State.antt). It holds physical
-- memory as 64-bit words at addresses that are multiples of eight, the globals of kernel/pmm.c,
-- kernel/vmm.c, kernel/sched.c, kernel/process.c and kernel/strap.c, the table `procs`, and the
-- control and status registers. A function of the kernel takes a state to a `Run`
-- (Machine/Monad.antt): it returns a value and a state, panics, faults on an access outside the
-- direct map of RAM, shuts the machine down, or passes control to user mode, from which the code
-- after `return_to_user` is not reached. `out_of_fuel` stands for a loop that does not end. A
-- pointer to a process is an index of `procs`; every other pointer is an address.
-- Machine/Word.antt has the arithmetic of `uint64` and `int`, wrap-around included.
-- Machine/Memory.antt is `memset` and `memcpy` of util/string.c on whole words, as on aligned
-- pages; an address that is not aligned faults there, where C copies bytes. Machine/Returns.antt
-- says that a run returns.
--
-- Pmm: kernel/pmm.c. The free list is linked through the first words of the free pages;
-- Pmm/FreeList.antt relates it to a list of addresses, and Pmm/Init.antt is about `pmm_init`.
--
-- Vmm: kernel/vmm.c. `page_walk` is `walk`, a recursion over the levels whose round is `walk_step`;
-- `map_pages` is `map_loop`, `user_vm_unmap` is `unmap_loop`. Vmm/Tables.antt says what the words
-- of memory mean as tables: a `Role` gives every table page its address space, level and position.
-- Vmm/Space.antt joins this with the free list. `leaf` reads the entry of an address in memory, and
-- `translate` the page; both are the abstract view in which the effect of the code is stated.
--
-- Sched: kernel/sched.c and `switch_to` of kernel/process.c. Sched/Queue.antt relates the links
-- `queue_next` to the list of waiting processes.
--
-- Process: `free_process` and `do_wait` of kernel/process.c; `wait_loop` is the search for a child
-- and `reclaim` what happens to the one that is found.
--
-- Process/Create.antt has `init_proc_pool`, `alloc_process` and `realloc_process`;
-- Process/Frame.antt is about the frame and the directory of a new process, and
-- Process/Segments.antt about the pages mapped for it; Process/Built.antt joins them for
-- `alloc_space`, the part of `alloc_process` up to the table of files. Process/Fork.antt has
-- `do_fork`: the loop over the regions of a process is `fork_regions`, and its `switch`
-- `fork_region`. Process/Info.antt is `do_getinfo`, whose output is a report.
--
-- Elf: kernel/elf.c. What the loader reads from the host into its local variables are words that
-- the record `ElfFile`, a parameter, gives. A round of the loop of `elf_load` that loads a segment
-- is `load_segment`. Elf/Exec.antt is `load_shell_bincode_from_host_elf`, which exec calls; a write
-- past a local array is undefined in C and a fault here.
--
-- Trap and Syscall: kernel/strap.c and kernel/syscall.c. `rrsched` and `sys_user_yield` end in
-- `schedule`; the page-fault handler and `sys_user_allocate_page` take a page from the memory
-- manager and give it to `user_vm_map`; `sys_user_free_page` goes the other way. Syscall/Table.antt
-- is the table of calls: `decode` selects a branch and `run_call` runs it. The console is the
-- record `Console`, and the record `World` joins all parameters. Trap/Handler.antt is
-- `smode_trap_handler`. In Trap/Turns.antt traps are steps, and user mode between two of them may
-- change memory and the other registers, not the processes and the queue.
--
-- Boot: kernel/kernel.c. `s_start` runs the components in the order of the start of the kernel.
--
-- Str: util/string.c, on memory as bytes; Str/Text.antt says that a string stands in memory. The
-- kernel calls `strcmp` on its words, which is Machine/Bytes.antt. `atol` wraps around where the
-- sum overflows a `long`, which C leaves undefined.
--
-- Shell: user/sh.c, on memory as bytes. `panic` is the end `panics` of an `Outcome`, a store
-- outside of `argv` the end `overrun`. In the parser the page for the command is
-- there; `run_child` asks for it. Shell/Line.antt says
-- what a line of words is. Shell/Loop.antt is `mysh`, and Shell/Session.antt says what it asks the
-- kernel for, line by line.
--
-- User: user/user_lib.c. A program is a tree of the calls it asks for; the kernel answers with the
-- register a0 and with memory, and `serve` (User/Serve.antt) runs a program on a list of answers.
-- User/Programs.antt has user/cat.c, user/createproc.c and user/top.c. User/Interface.antt puts
-- the requests of the library beside the functions of kernel/syscall.c that serve them.
--
-- Dev, Rfs, Vfs, Hostfs and File: kernel/dev.c, kernel/rfs.c, kernel/vfs.c, kernel/hostfs.c and
-- kernel/file.c, with the structures of their headers as words of memory. Rfs/Mount.antt is
-- `rfs_do_mount`, Rfs/Lookup.antt is `rfs_lookup`, and Vfs/Open.antt is `vfs_open` and `do_open`. A
-- pointer to a function is an address of the record `Code`, and a call compares. A result that C
-- returns through a pointer is part of the result. The functions of the host interface that
-- `host_open` calls are the record `Host`, and its table of files is `SpikeFiles`, both parameters.
-- The inode that `vfs_open` leaves uninitialised is the parameter `stale`.
--
-- Bounds and fuel: the loop of `map_pages` gets the number of pages from `first` to `last` plus
-- two, that of `user_vm_unmap` the number of pages of the range plus two, the loop of
-- `create_freepage_list` the number of pages plus one, and the walk of the ready queue 33 rounds,
-- one more than there are processes. The theorems about these functions say that they return, so
-- this is enough where their conditions hold. A loop that ends at a NUL byte has fuel as an
-- argument, and more than the length of the string is enough; so has `parse_loop`, for more than
-- the length of the line; the loops of `wait` and `mysh` get a number of rounds. The loop of
-- `sys_user_read` and `sys_user_write` has two rounds.
-- `page_walk`, `memset` and the loops of `do_wait` need no fuel.
--
-- Not modelled: output by `sprint` and `printu`; machine mode and assembly; the interface to the
-- emulator's host (spike_interface) and formatted output (util/snprintf.c), which come from another
-- project; and the programs of user that only print. Translation by the hardware and its caches
-- are outside: the kernel runs on the direct map. The addresses that the linker gives are the
-- record `Symbols`, a parameter.
pub mod Base
pub mod Boot
pub mod Dev
pub mod Elf
pub mod File
pub mod Hostfs
pub mod Machine
pub mod Pmm
pub mod Process
pub mod Rfs
pub mod Sched
pub mod Trap
pub mod User
pub mod Syscall
pub mod Vfs
pub mod Vmm
pub mod Shell
pub mod Str
pub mod Tests
