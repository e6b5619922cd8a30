-- ===== src/Lib.antt =====
-- The gluKe kernel: a small 32-bit kernel with tasks, a page allocator, handles, mutexes and
-- terminals (gluKe/), the library that it shares with its tools (mylib/), and the tool that patches
-- its image (gluKe/build_utils/).
--
-- How the parts work together. `rgn_alloc` and `rgn_free` hand out pages and remember the task each
-- region is for. A task has handles; a handle is a file or a mutex, and a file belongs to a driver,
-- of which there is one, the terminal. The timer lets the scheduler choose the next task. All shared
-- tables are changed within sections (`one` and `all`), which turn interrupts off. When a task dies,
-- its handles are closed and its regions freed.
--
-- Base        shared: C's arrays, tests, search loops and `int`
-- Rgn         gluKe/rgn.c, the page allocator. `Rgn` is the pair of tables, its entries are in
--             Rgn/Tables. The functions have the source's names; `alloc_basic` is
--             st_rgn_alloc_basic, `free_index` st_free_index.
--             Rgn/Invariant has what the tables keep true, Rgn/Alloc, Rgn/AllocBase, Rgn/Emptied,
--             Rgn/Free, Rgn/Release and Rgn/Task what the calls do, Rgn/Run histories, Rgn/Init the
--             start
-- Utils       gluKe/utils.c, numbers as text: itos and stoi and their callers
-- Printf      gluKe/utils.c, formatted output. `printf_loop` is the loop of st_printf
-- Mtok        mylib/mtok.c, the tokenizer. Mtok/Words has single calls, Mtok/Calls
--             sequences of them, Mtok/Buffer what all calls keep
-- Int         gluKe/int.c, sections and the dispatch of interrupts. Int/Nesting has balanced
--             calls, Int/Idt is int_init, the table of gates
-- Handle      gluKe/handle.c, the list of handles
-- Mutex       gluKe/mutex.c over the handles. `lock_once` is one attempt, `lock_wait` blocks
-- The scheduler, gluKe/plan.c, is in Plan. `age_loop` and `pick_loop` are its two loops
-- Term        gluKe/drivers/term.c. Term has the buffers and the screen, Term/Driver the driver's
--             calls, Term/Control its ioctl, Term/Keyboard the keyboard handler; Term/Output and
--             Term/Input have what the buffers keep true, Term/Opening which terminal is
--             opened, Term/Separate what one terminal leaves to the others, Term/Start
--             the start of the driver
-- File        gluKe/file.c over a table of drivers. `open_path` is `open`
-- Task        gluKe/task.c and the descriptors of gluKe/sys_utils.c. Task/Switch has the switching,
--             Task/Structs the structures, Task/Birth the making of a task, Task/Start the
--             first two, Task/Kill the death of one
--
-- LinkedList  mylib/linked_list.c, nodes with pointers in a memory. LinkedList/Links says which
--             sequence a list stands for; LinkedList/Change has single changes, LinkedList/Walk and
--             LinkedList/Delete the loops. `find_and_delete` is ll_find_and_delete_node, `delete_p`
--             st_delete_p, `map_p` st_map
-- MemBlock    mylib/mem_block.c over the page allocator. MemBlock/Slots and MemBlock/Sound are about
--             one block, MemBlock/Chain, MemBlock/Alloc and MemBlock/Free about the list of blocks
-- Life        mylib/life.c. Life/Shapes has the objects, Life the generations; Life/Torus is the game
--             itself, Life/Around, Life/Count and Life/Step lead from one to the other
-- Work        gluKe/ktasks/work.c, the command loop. Work/Words has the words of a line,
--             Work/Commands what a line does. `work_round` is one round of the loop of work
-- Paging      init_paging of gluKe/sys_utils.c. Paging/Table has one table, Paging/Catalogue the pages
--             from the allocator, Paging/Rounds the loop, Paging/Identity the translation
-- Timer       the timer and the speaker of gluKe/sys_utils.c; Timer/Divider has their frequencies
-- Tick        the timer's task of gluKe/int.c with the scheduler over the kernel's tasks. `choose` is
--             what plan does for both its callers, `timer_round` one round of int_handle_timer.
--             Tick/Round has a tick, Tick/Setup and Tick/Cases plan_init
-- Console     kwr, write_string and read_line of gluKe/sys_utils.c
-- Ktasks      gluKe/ktasks/: Ktasks/Counter, Ktasks/Reverse (Ktasks/Swaps and Ktasks/Reversed have its
--             loop and its answers) and Ktasks/LifeTask, which Ktasks/Boards joins to Life
-- Cpuid       mylib/cpuid.c. Cpuid/Descriptors, Cpuid/Lines and Cpuid/Report are cpuid_print.c, the
--             texts as they are printed; Cpuid/Brand has the brand string, Cpuid/Ends the loop over
--             the caches
-- Boot        gluKe/entry32.c: alloc_memory_not_in_use, the memory in use at the start. Boot/Ram is
--             get_RAM_size of gluKe/sys_utils.c, Boot/Start entry32 up to int_init, which calls the
--             functions of Rgn, Paging, Timer and Int; `start_on` is the part behind get_RAM_size.
--             Boot/Keeps and Boot/Up have what it leaves. Boot/Finish is entry32 from task_init on,
--             over Task, File, Console and Tick, Boot/SameTasks what printing and the drivers leave of
--             the tasks, Boot/Running the tasks in the end, Boot/Whole both parts,
--             Boot/FirstTick the tick of the timer behind it
-- Reports     what the kernel prints about itself, as texts
-- Patcher     gluKe/build_utils/patcher.c, the tool that writes bytes into the image. `pairs_loop` and
--             `repeat_loop` are the loops of parse_patch_string; Patcher/Pairs, Patcher/Bytes and
--             Patcher/Patched have what they write
--
-- Conventions. A pointer into a list or a table is its index, a null pointer is `none`. A string is
-- the list of its codes up to the NUL. An `int` that may be negative is a ℤ, a word is a number with
-- its wrap-around written out. Memory that a new list node reuses is an argument. Assembly and the
-- processor are modelled by what they do to the interrupt flag and the screen.
--
-- Bounds and fuel. The loop over the caches gets 256 rounds, more than a byte counts. The loop of
-- `itos` gets 32 rounds, as many as a 32-bit number has binary digits. Each loop of the scheduler
-- gets a round for each task; Plan/Sleep and Plan/Next show that this is enough. A loop over a
-- linked list gets more rounds than it has nodes, formatted output one more than its format has
-- codes. get_RAM_size gets a round for each page above 2 megabytes and one more. The loop of the
-- game gets as many rounds as its callback is to see. The allocator's addresses lie below 2 ^ 31.
--
-- Not modelled: the assembly routines and init_GDT, which loads a register, the interleaving of the
-- start with interrupts, the greetings of the tasks, and the storing of the driver's functions and of
-- the keyboard's handler; what a byte in front of a terminal's output changes, which is recorded
-- only; and what a write behind a buffer or a block of the patcher does, which ends the run there. The tables of handles and tasks are lists and not the nodes of LinkedList,
-- and ll_init succeeds.
-- `stoi` is not called with a null pointer to its result.
pub mod Base
pub mod Rgn
pub mod Utils
pub mod Mtok
pub mod Int
pub mod Handle
pub mod Mutex
pub mod Plan
pub mod Term
pub mod File
pub mod Task
pub mod LinkedList
pub mod MemBlock
pub mod Life
pub mod Work
pub mod Paging
pub mod Printf
pub mod Boot
pub mod Timer
pub mod Cpuid
pub mod Tick
pub mod Console
pub mod Ktasks
pub mod Patcher
pub mod Reports
