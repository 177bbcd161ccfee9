-- ===== src/Lib.antt =====
-- Verification of the programs of this repository.
--
-- The Kyouko3 graphics driver (Kyouko3_GrpahicsDriver/mymod.c and mymod.h), in Kyouko3:
--   * Register: the offsets of the registers and commands.
--   * State: `struct kyouko3` with its FIFO and its eight DMA buffers, K_READ_REG, K_WRITE_REG and
--     FIFO_WRITE. What the driver does to the card and asks of the kernel is a list of effects,
--     newest first; what the card and the kernel answer are arguments.
--   * Dma: dma_intr, start_dma, bind_dma, late_unbind_dma and on_time_unbind_dma. start_dma is cut
--     where it gives up its spin lock, since an interrupt can come in from there on.
--   * Graphics: fifo_queue, fifo_flush, graphics_on and graphics_off.
--   * Files: kyouko3_open, kyouko3_release, kyouko3_ioctl, kyouko3_mmap, the PCI callbacks and the
--     entry points of the module.
--   * Ring: the user thread, the interrupt handler and the card as a system of steps.
--     Ring.Pending, Ring.Parts, Ring.Invariant and Ring.Submit build its invariant, Ring.Guarantees
--     draws on it, Ring.Memory adds the memory of the transfers, from kyouko3_open on. Ring.Card and
--     Ring.Boards add the card, which takes commands from the FIFO's memory up to the head that it
--     was told; Ring.Delivery and Ring.Opening are about what it is given there. Ring.Signal and
--     Ring.Callers are about what is no step of the system: a wait that a signal ends, and two
--     threads in start_dma at once. Ring.Timely says when a card keeps to what it was given; under
--     that, Ring.Calls, Ring.Flushes and Ring.Refine make each call of kyouko3_ioctl a run of the
--     system, Ring.Count, Ring.Users and Ring.Sessions follow a program through any calls, and
--     Ring.Closing follows on_time_unbind_dma.
--   * Queue: the FIFO as the card reads it; Flushing: what a flush has seen; Interrupted: an
--     interrupt between the two halves of FIFO_WRITE. Binding and Freeing: the DMA buffers and what
--     the kernel gave; Unbinding: the signal that ends the wait of late_unbind_dma. Mapping: pages
--     and register addresses. Bounds: the indices of every call.
--
-- The user thread fills a buffer and hands it to start_dma; the driver gives it to the card through
-- the FIFO when the card is idle and queues it otherwise; the card reports a transfer by an
-- interrupt, whose handler gives it the next one and wakes the thread if it waits for room.
--
-- The I/O scheduler (SSTF/greedy-iosched.c), in Sstf: Links are the list heads in memory, with the
-- kernel's functions on them as the parameter KernelList, which states what linux/list.h documents.
-- Scheduler is the code, Schedule its specification on lists, Segment and Queues what the links stand
-- for; Insert, Remove, Refine and Dispatch carry the refinement, Spacing, Nearest, Placed and Adding
-- are about the order of the requests, Neighbours about the other operations; Registration is the
-- table of all of them. Run is a scheduler from greedy_init_queue to greedy_exit_queue, with any
-- calls in between; Elevator is about such runs, with the permutations of Perms.
--
-- The system calls (Smunch-SystemCalls/smunch.c and stoogecalls.c), in Smunch: Signals is the
-- kernel's signal sets, a parameter, and tasks; Calls is the code; Smunching and Counters are about
-- it. Sleeping has goober, sleep_on and deepsleep, for wait queues that are a parameter too.
--
-- The drawing program (Kyouko3_GrpahicsDriver/main.c), in Triangles: Commands is fifo_commands on top
-- of the driver's queue, Buffers the filling of a DMA buffer in dma_commands, and Program the whole
-- program on the driver, for numbers that drand48 gives; a run that calls die_with_message ends there.
-- Drawn reads the vertices back from FIFO commands, Contents the triangles from a DMA buffer, and Sizes
-- is about the buffers of a whole run. Session, Rounds and Fifty follow dma_commands on the driver,
-- with interrupts between its calls, through Kyouko3's Ring.Sessions; Ending and Completes are about
-- its end, and about where the program fills its buffers.
--
-- The labs (mylab), in Lab:
--   * Driver and Calls: the last version of the driver (5lab/mymod.c and mymod.h), its data, FIFO and
--     graphics mode, and its file operations and callbacks. Overrun: what its FIFO takes, and what it
--     gives back of its memory.
--   * Client: the program that draws a triangle (5lab/user.c). Program follows it from `open` to
--     `close` on that driver, with Filled and Progress about the FIFO on its way; Drawn compares its
--     commands with those of Kyouko3_GrpahicsDriver/main.c.
--   * Third and Fourth: the drivers of lab3/mymod.c and lab4/mymod.c; Versions compares them with the
--     last. FourthClient: the program of lab4/user.c; FourthProgram follows it on the fourth driver by
--     way of the last. Second: the drivers and programs of lab2 and lab1. Pixels: the program of
--     lab3/user.c.
--
-- Numbers: a field of 32 or 64 bits is a ℕ, with the wrap-around written out where the code can
-- reach it (`u32`, `inc32`, `dec32`, `sub64` of Common.Words). `int queued_count` is its bit pattern.
--
-- Loops: the flush loop runs over the given turns of the card, and `none` says that it has not
-- returned within them; the waits run over the interrupts that arrive. The search of
-- greedy_add_request runs on fuel above the length of its queue, which is enough.
--
-- Interrupts come between the steps of Ring, and in the calls' waits, the turns of a flush and behind the
-- unlock of start_dma. Between the two halves of FIFO_WRITE they are in Interrupted only. The driver does
-- not test whether the FIFO has room: Ring.Boards takes room as a condition of its steps, and Queue says
-- what happens without.
--
-- Not modelled: printk, udelay, rmb, the tables that register a driver, several user threads in the
-- driver at once but for the two of Ring.Callers, an interrupt handler on another processor, which the
-- spin lock of start_dma, a local variable, does not keep out, a mapping by ioremap that fails, and the
-- values that the programs print.
pub mod Common
pub mod Kyouko3
pub mod Sstf
pub mod Smunch
pub mod Triangles
pub mod Lab
