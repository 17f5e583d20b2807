-- ===== src/Lib.antt =====
-- ipc-shm: the shared memory driver for inter-processor communication.
--
-- Two cores, each running the driver, share two memory regions; each core writes to its local region
-- and reads the remote one. A managed channel sends buffer descriptors through a dual-ring queue and
-- keeps the free buffers of each of its pools in another one; an unmanaged channel is one area with a
-- transmit counter. ipc-shm.c sets up instances, channels and pools, lends and sends buffers, and
-- receives under a budget; it stands on ipc-queue.c, and on the hardware (hw/) and operating system
-- (os_kernel/, os_uio/) layers below.
--
-- The parts, and the files of the repository that they model:
--   Types            ipc-types.h: limits, magic numbers, configuration; error numbers
--   Memory           the shared memory: struct ipc_ring (ipc-queue.h), struct ipc_shm_bd, struct
--                    ipc_channel_umem and struct ipc_shm_global (ipc-shm.c)
--   Queue            ipc-queue.c: pop, push, sync_index, init, free, check_integrity; its children
--                    hold the FIFO view (Window, Pipe, Fifo), sessions of both sides (Session), what is
--                    written where (Frame), initialization (Sync), and both sides at once (Spsc)
--   Shm.State        the private data of ipc-shm.c, and ipc-os.h and ipc-hw.h as a record, Platform
--   Shm.Lookup       get_channel() and its kin, the integrity checks, ipc_instance_is_free(),
--                    ipc_shm_is_remote_ready()
--   Shm.Buffers      find_pool_for_buf(), ipc_shm_acquire_buf(), ipc_shm_release_buf(), ipc_shm_tx()
--   Shm.Unmanaged    ipc_shm_unmanaged_acquire(), ipc_shm_unmanaged_tx()
--   Shm.Rx           ipc_channel_rx(), ipc_shm_rx(), ipc_shm_poll_channels()
--   Shm.Setup        ipc_buf_pool_init(), managed_channel_init(), unmanaged_channel_init(),
--                    ipc_shm_init_channels(), get_chan_memmap_size()
--   Shm.Teardown     ipc_shm_free_managed_channel(), ipc_shm_free_channel()
--   Shm.Instance     ipc_shm_init_instance(), ipc_shm_free_instance(), ipc_shm_init(),
--                    ipc_shm_free()
--   Shm.Frame        what initialization and release leave alone
--   Shm.Delivery     from ipc_shm_tx() on one side to ipc_channel_rx() on the other
--   Shm.Layout       where the initialization puts channels, rings and buffers in the shared memory
--   Shm.Ledger       where the buffers of a channel are while both cores use it: free, held by the
--                    sender, on their way, or with the receiver
--   Shm.Example      a concrete platform and a concrete state
--   Hw               hw/s32gen1 and hw/s32g3xx: the initialization and the interrupts of the MSCM, over
--                    tables of the chip in Hw.S32gen1 and Hw.S32g3xx; Hw.S32r47 is hw/s32r47
--   Os               os_kernel/ipc-os.c: the interrupt handlers and ipc_os_poll_channels(); Os.Setup
--                    has ipc_os_init(), ipc_os_free() and ipc_os_map_intc(), Os.Mapping and Os.Balance
--                    what they do, and Os.Linux is the driver on this layer and on Hw
--   Uio              os_uio/ipc-os.c, the layer in user space: the search of its device and the commands
--                    in Uio, ipc_os_init() and ipc_os_free() in Uio.Setup, the device files in Uio.Files;
--                    Uio.Driver is os_kernel/ipc-uio.c, the kernel module below it
--   Xen              os_kernel/ipc-xen.c, the layer for a guest of Xen
-- A function of the source is the function of the same name, less its prefix; a loop is a function
-- that counts its rounds down; a part of a long function has a name of its own. The Tests modules run
-- the code and apply the theorems at concrete states.
--
-- How the code is read:
--   * Shared memory is three maps from addresses: rings, control structures of unmanaged channels,
--     and state words. Objects at different addresses, or of different types, do not overlap; the
--     bytes of buffers are not modelled. A read gives what was last written there, and no access
--     faults. Only Queue.Spsc and Uio.Driver.Exclusive have several sides act at once; elsewhere an
--     operation runs by itself.
--   * Numbers are natural, with the wrap-around of their C types written out; uintptr_t has 64 bits. A
--     subtraction occurs only where the source keeps it from going below zero.
--   * A union is one field per member. The entries of pools[] and channels[] beyond their length are
--     the memory behind the array, of which nothing is assumed. The pool id of a descriptor is read as
--     its bits.
--   * Platform, the layers below, and App, the callbacks, are parameters. Callbacks are arbitrary
--     functions on the whole state, so they may call the driver; what a theorem asks of them is among
--     its hypotheses.
--   * The calls of the Linux kernel and of POSIX are parameters, Kernel, Posix, Linux and XenCalls. What
--     a theorem asks of them is among its hypotheses, such as what a page table holds. An error number
--     that they return is a Status.
--   * The registers are a parameter, Mmio, of reads and writes by the address of the block; nothing
--     is assumed of what a register does. IPC_IRQ_NONE is `none`; other negative interrupts are left
--     out.
--   * ipc_shm_rx() runs on fuel: a pass that another one follows has used up the share of a channel,
--     which is at least 1, so budget + 2 passes are enough. Its budget is not negative.
--   * The remote and the local memory of an unmanaged channel are read at the moment of each access.
--
-- Not modelled: hw/s32v234, which does not compile; the receive thread of os_uio/; the samples and
-- their configuration tables, which only call the driver; messages to the log.
pub mod Common
pub mod Types
pub mod Hw
pub mod Memory
pub mod Queue
pub mod Shm
pub mod Os
pub mod Uio
pub mod Xen
