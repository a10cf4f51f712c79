-- ===== src/Lib.antt =====
-- The EVL real-time core's headers for the kernel on RISC-V, and the RISC-V interrupt controller
-- driver: a model of what kernel-overlay/ defines, with theorems about it.
--
-- The program. kernel-overlay/ is laid over a Linux kernel tree with the Dovetail interrupt pipeline.
-- Its headers hold the inline half of the EVL core: scheduler queues, timers, clocks, threads, locks,
-- wait queues, and the glue between the in-band stage (Linux) and the out-of-band stage (EVL). The
-- other half, kernel/evl/*.c, is not in the repository: what the headers only declare is an argument
-- of the definitions that call it. So are the kernel's own libraries, with what they document as
-- named hypotheses (FindFirstBit, RbTree, KeepsStall, TrapEntry, IsFifoTable, KeepsCounts,
-- KernelTime, IocMacro, TracksLocks, Consumes, Escalates, Refcount, WakesAll).
--
-- How the parts interact. A thread (Thread) belongs to a runqueue (Sched) and to a scheduling class
-- (Sched.Class); the FIFO class (Sched.Fifo) keeps its runnable threads in a queue (SchedQueue) that
-- is either one sorted list (PrioList) or a list for each priority level with a bitmap. A
-- rescheduling request is a flag of a runqueue (Sched.Resched), looked at by evl_schedule(), which
-- the end of an interrupt and the end of a preemption-disabled section (Sched.Preempt) call; a
-- thread is pinned to its runqueue by two locks (Sched.Pin). Timers (Timer) wait in queues of a
-- clock (Clock), with the same insertion as the priority lists. Execution time goes to accounts
-- (Stat). Threads wait for flags, semaphores and mutexes (Wait), and in-band code for out-of-band
-- callers at a crossing (Crossing). User space reaches the core by commands (Ioctl) that pass
-- structures (Abi). Interrupt state is kept twice, in the status register and in the stall flag
-- (Pipeline), and interrupts come through the controller (Intc).
--
-- Which file models what. Paths are from the repository's root, below kernel-overlay/include/ unless
-- they start with kernel-overlay/.
--   Base        numbers, tests, lists and flag words that all modules share
--   PrioList    evl/list.h: __list_add_pri (list_add_pri), list_add_priff, list_add_prilf,
--               list_get_entry
--   SchedQueue  evl/sched/queue.h: Linear is the form without CONFIG_EVL_SCHED_SCALABLE, Mlq the one
--               with it; evl_add_schedq is add_schedq, and so on; Refine relates the two, operation
--               by operation, and Run over sequences of operations
--   Timer       evl/timer.h: Queue and Tree are the two timer queues, Core the timer's operations
--               (evl_update_timer_date is update_timer_date, and so on), Base the timer bases and
--               initialisers, Up what differs without CONFIG_SMP; Run is the timers of a base over
--               time, as a step relation
--   Clock       evl/clock.h and evl/tick.h: dispatch to a clock's handlers; Convert is the
--               conversion of times between user space and the kernel
--   Stat        evl/stat.h: counters and accounts; Off is what is left without
--               CONFIG_EVL_RUNSTATS
--   Thread      evl/thread.h and uapi/evl/thread-abi.h: the record, the flags, the user window, the
--               double lock; Start is the start of kernel threads, Current the current thread, its
--               out-of-band state of asm-generic/evl/thread_info.h and mm_info.h, and evl/monitor.h
--   Sched       evl/sched.h, evl/irq.h, evl/lock.h, evl/sched/fifo.h, idle.h, quota.h, tp.h,
--               weak.h and param.h; Runnable is the interface between the classes and the queues,
--               filled by both forms; Fifo.Run, Fifo.Sound and Fifo.Refine are whole runs of the
--               FIFO class over it; Class.Count is the counts of threads of a class; Pin is the
--               pinning macros; Resched.Nesting is code of handlers, sections and requests nested in
--               one another, Resched.Remote the requests of several CPUs; Preempt.Debug the checks of
--               CONFIG_EVL_DEBUG_CORE; Cpu the runqueues of the CPUs, and asm-generic/evl/irq.h; Up
--               what differs without CONFIG_SMP
--   Pipeline    kernel-overlay/arch/riscv/include/asm/irqflags.h and irq_pipeline.h, and
--               asm-generic/irq_pipeline.h; Hard is the hard_ and stage_ forms of the last, Nesting is
--               sections without interrupts nested in one another
--   Intc        kernel-overlay/drivers/irqchip/irq-riscv-intc.c; Run is sequences of calls of a chip
--   Crossing    evl/crossing.h, with its interleavings as a step relation
--   Wait        evl/wait.h, evl/flag.h, evl/sem.h, evl/mutex.h, and the handles of uapi/evl/types.h;
--               Raise is the locked operations of a flag, Init the initialisers
--   Element     evl/factory.h: elements and their reference counts; Factory is factories and the
--               index, Cache the records of evl/cache.h
--   Socket      evl/net/socket.h, evl/net/input.h, evl/uio.h: charges and lengths; Device is a
--               device's side, of evl/net/device.h, qdisc.h, route.h, skb.h and
--               asm-generic/evl/netdevice.h; Proto is protocols and domains, with evl/net/offload.h,
--               evl/net.h and evl/stax.h, Ipv4 is evl/net/ip.h, evl/net/ipv4.h, arp.h and udp.h below
--               evl/net/ipv4, and asm-generic/evl/net.h
--   Ioctl       the commands of the core's devices, from the headers of uapi/evl (uapi/evl/net and
--               uapi/evl/devices included): EVL_THRIOC_YIELD is thrioc_yield of thread_code, and so on
--   Abi         the structures of the same headers as C types; Types, Sched and Requests have them by
--               header, Paramlen the lengths of TP schedules; Stable gives the commands their sizes;
--               Constants is their constants, with uapi/evl/syscall-abi.h and fcntl.h, Signal is
--               uapi/evl/signal.h
--   Memory      evl/memory.h: constants and inline operations of heaps
--   Work        evl/work.h: work for the in-band stage
--   Poll        evl/poll_head.h, evl/poll.h and asm-generic/evl/poll.h: heads that pollers watch
--   Control     evl/control.h: the run state of the core
--   File        evl/file.h: references to files
--   Assert      evl/assert.h: assertions
--   User        evl/uaccess.h: copies by 64-bit addresses; the record of evl/observable.h
--   Init        evl/init.h and evl/device.h: calls while the core starts
--   Gpio        evl/devices/gpio.h: records of the GPIO glue
--   Placeholder the headers of dovetail/, and what asm-generic/evl/poll.h and evl/device.h define
--               without a core
--
-- Conventions. State is a record with the source's members; what a call changes is its result. A
-- pointer is an address, a number, and `none` is null. Machine words are natural numbers with their
-- wrap-around written out; an int is a bit pattern, compared after adding half the modulus. A flag
-- word is read by binary digits. A list is written from its first entry to its last, and a thread in
-- it is its address, with the priorities given by a function. list_del() unlinks an entry from the
-- list that it is in. Locks are taken by the caller and are not represented, except where their order
-- or number is what counts (Thread.Lock, Sched.Preempt, Sched.Pin).
--
-- Bounds and fuel. The loop over a timer queue takes as many rounds as the queue has nodes, and a
-- theorem says that these are enough. The loop that maps interrupts takes the number of interrupts.
-- The wait loop takes a list of what its sleeps do, and returns `none` where the thread still sleeps.
-- Nested code is a finite tree of operations, run by recursion on it.
-- EVL_MLQ_LEVELS is a parameter, at most 2 ^ 31; MAX_RT_PRIO is a parameter below 2 ^ 30.
--
-- Not modelled: the handlers of the quota, TP and weak classes, the allocator of heaps, index caches,
-- observables, monitors, and the slow paths of polling and work, of which the repository has only
-- declarations; the commands of spidev.h, and the order of bit fields within their word; trace points;
-- the copies of the kernel's own UAPI headers; scripts, configurations and documents.
-- Options: CONFIG_SMP (without it see Sched.Up), CONFIG_EVL_RUNSTATS (without it see Stat.Off),
-- CONFIG_EVL_SCHED_QUOTA and CONFIG_EVL_SCHED_TP on, CONFIG_EVL_DEBUG_CORE off (for it see
-- Sched.Preempt.Debug).
pub mod Base
pub mod PrioList
pub mod SchedQueue
pub mod Timer
pub mod Clock
pub mod Stat
pub mod Thread
pub mod Sched
pub mod Pipeline
pub mod Intc
pub mod Crossing
pub mod Wait
pub mod Element
pub mod Socket
pub mod Ioctl
pub mod Abi
pub mod Memory
pub mod Work
pub mod Poll
pub mod Control
pub mod File
pub mod Assert
pub mod User
pub mod Init
pub mod Gpio
pub mod Placeholder
