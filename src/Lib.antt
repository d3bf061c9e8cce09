-- ===== src/Lib.antt =====
-- A verification library of shm, the shared-memory channel between a C++ host and a Go guest. It models
-- the host's library, the headers of include/shm, and takes the guest and the operating system as
-- parameters.
--
-- The parts and their files:
--
--   Base            lists and numbers with native indices, wrapping arithmetic, memory copies,
--                   little-endian bytes, and the maps of the standard library as association lists.
--   Wire            include/shm/IPCUtils.h (`MsgType`) and include/shm/Stream.h (`StreamHeader`,
--                   `ChunkHeader`): the two stream headers as bytes.
--   StreamContext   include/shm/StreamReassembler.h: `StreamContext` with `Fits`, `InBounds`, `Write`,
--                   `AccountInOrder`, `NotePlaced`, and the guarded block of `Handle` that places a
--                   chunk and drains the parked ones. Its children hold the invariant (Valid), its
--                   preservation (Place), and what a conforming sender's plan of parts means for a
--                   context (Parts, Plan, Arrive).
--   Reassembler     the rest of include/shm/StreamReassembler.h: the configuration and its clamp,
--                   `Handle`, `Prune`, `PeekStream`. Children: the invariant of the table (Valid), its
--                   preservation by every call (Safety), sequences of messages (Trace), a stream that is
--                   tracked through any traffic (Tracking, Integrity), whole sessions (Completion,
--                   WholeStream, Session), what one chunk does to the table (Isolation), and how
--                   streams that are too old make room (Expiry).
--   StreamSender    include/shm/Stream.h: `StreamSender::Send`, over the host as an interface
--                   (`SenderHost`). A recording host (Recording) writes down what it is handed; Plan is
--                   the stream cut into chunks, Post, Rounds and Sends follow the loop, Return is its
--                   end, and Deliver joins it to the reassembler.
--   WaitStrategy    include/shm/WaitStrategy.h: the adaptive wait, for any condition and any sleep.
--   Slot            include/shm/SlotAllocator.h and `SlotHeader` of include/shm/IPCUtils.h:
--                   `tryClaimSlot` and `TryReclaimAbandonedSlot` (proofs in Claim and Reclaim), the
--                   accessors (Access), `AcquireSpecificSlot` (Acquire), `TryAcquireSlot` and
--                   `AcquireSlot` over all slots (Pool), and the transactions (Exchange):
--                   `WaitForRespReady`, `FinishWait`, `WaitResponse`, `SendAcquired`, `SendHeld`,
--                   `SendAcquiredAsync`, `WaitForSlot`, `ReleaseHeldSlot`.
--   GuestCall       include/shm/GuestCallWorker.h: `ProcessGuestCalls`, `LockForPublish` and
--                   `PublishResponse`; `WaitForRequest`, `GuestRequestEvent` and `WakeWaiter` (Wait,
--                   with the loops and the gate before a park in Gate, and its return in Report and
--                   Return); the thread with `GuestWorkerLoop`, `Start` and `Stop` (Thread).
--   Host            include/shm/DirectHost.h: `Init`, which lays the slots out in the mapping, the
--                   handles `HeldSlot` and `ZeroCopySlot` (Handle), the transactions of a
--                   `ZeroCopySlot` and its views of the response (ZeroCopy), `SendToSlot` and `Send`
--                   over the slots (Send), and `Shutdown`, `SetAutoReclaimTimeoutNs` and
--                   `SendShutdown` (Life).
--   CopySmall       include/shm/Platform.h: `CopySmall`.
--   Processors      include/shm/Platform.h: `EnumerateCcxMasks` and `EnumerateSmtPairs`.
--   RingBuffer      include/shm/RingBuffer.h and include/shm/RingBufferUtils.h: `RingBufferSender`.
--
-- How they interact: a host lays the slots out (Host), claims a slot (Slot), sends a request on it and
-- waits (Slot.Exchange over WaitStrategy); calls of the guest come in on other slots (GuestCall), and a
-- handler may pass their messages to a reassembler (Reassembler), which reads headers (Wire) and keeps a
-- context for each stream (StreamContext). A large message goes out as the start and the chunks of a
-- stream (StreamSender).
--
-- A call of the reassembler runs under `streamsMutex`, so it is one step of its state; the clock and the
-- success of allocations are arguments (`Reassembler.Env`), and one call reads the clock once. A slot is
-- shared, so its operations are sequences of accesses, and before each access the other parties change
-- the memory as they like (`Slot.Env`); memory orders weaker than the sequence of accesses are not
-- modelled. Fields that a slot's owner reads or writes by plain accesses in a row are read or written at
-- one access.
--
-- Bounds and fuel: sizes wrap at 32 and 64 bits where the source's types do. The drain loop has as much
-- fuel as there are parked chunks and one more, which is always enough. The loop of a wait for a
-- response has fuel as an argument, and a theorem says how much is enough for a finite timeout; a wait
-- without a timeout may not return. The loop of a ring buffer's `Write` has fuel too, and as many rounds
-- as bytes are enough with a guest that reads. The retries of `AcquireSpecificSlot` have fuel, and a
-- theorem says how much is enough for a finite timeout. The rounds of `GuestWorkerLoop` have fuel, and
-- as many as its flag is up are enough. The rounds of `StreamSender::Send` have fuel, and as many as the
-- stream has bytes are enough while the host has slots. The sweeps of `AcquireSlot` have fuel, and two
-- sweeps are enough when there is a slot to have and nobody interferes.
--
-- Not modelled: include/shm/Logger.h (debug output), include/shm/IPCProtocol.h (an unused struct), the
-- rest of include/shm/Platform.h (calls of the operating system, and the lock of a host's name), the
-- members of the façade include/shm/DirectHost.h that only pass their arguments on, the guest (go),
-- tests and benchmarks.
pub mod Base
pub mod StreamSender
pub mod Wire
pub mod WaitStrategy
pub mod Slot
pub mod GuestCall
pub mod Host
pub mod CopySmall
pub mod Processors
pub mod RingBuffer
pub mod StreamContext
pub mod Reassembler
