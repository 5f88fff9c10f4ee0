-- ===== src/Lib.antt =====
-- Parts of the kernel. The networking stack: raw Ethernet frames over virtio-net or a fake
-- backend, ARP, IPv4, ICMP echo, UDP and a chat on top. The file system: ext2 over block devices.
-- The allocator of physical frames and the heap. Counted references to objects, and linked queues.
--
-- How the parts interact. net_poll_once takes one frame from net_recv_raw and gives it to
-- net_handle_frame, which hands ARP packets to handle_arp and IPv4 packets to handle_ipv4; that
-- answers echo requests through net_send_raw and passes datagrams to udp_handle_packet, which calls
-- the handler registered for the port, such as chat_udp_handler. The other way, net_chat_send calls
-- udp_send_to, net_send_ipv4, arp_cache_lookup and net_send_raw. A RamDisk is a BlockIo; an Ext2 is
-- mounted on a BlockIo, and finds its nodes in it; a Node is again a BlockIo, whose blocks are found
-- through the block map of its inode; a directory's entries are read through its node.
--
-- Files and the code that they model (functions keep their names):
--   Prelude       numbers, tests, arrays as lists, words, sets, rings of eight places
--   Address       the arrays ip[4] and mac[6] and their comparison
--   NetStats      kernel/net_stats.cc, kernel/net_stats.h
--   ArpCache      kernel/arp_cache.cc, kernel/arp_cache.h; Scan, Valid and Mapping prove
--   Wire          kernel/ethernet.h, arp.h, ipv4.h, icmp.h and the header of kernel/udp.h
--   World         the globals of the stack as one record
--   VirtioNet     kernel/virtio_net.cc, kernel/virtio_net.h: State (data), Fake (rings of the fake
--                 backend), Device (queues of the PCI device), Api (the public functions);
--                 Slots, Fifo, Transmit and Sending prove, Fifo of receiving, the others of sending
--   NetProto      kernel/net_proto.cc: Checksum, Send, Handle; Checked, Path, Bounded and Sizes
--                 prove
--   Udp           kernel/udp.cc: Table (handlers), Dispatch (receiving), Send; Ports proves
--   Chat          kernel/net_chat.cc: Store (state and handler), Api; Queues and Text prove
--   BlockIo       kernel/block_io.cc, kernel/block_io.h; Image proves
--   RamDisk       kernel/ramdisk.cc, and streq of kernel/machine.S
--   Ext2          kernel/ext2.cc, kernel/ext2.h: Layout (structs), Node (block mapping), Entries
--                 (directories), Mount (the file system); Content, Stored, Stuck and Nodes prove
--   PhysMem       kernel/physmem.cc, kernel/physmem.h: data and operations; Memory, Usable (the memory
--                 map), Ranges, Owned (who owns which frame), Claim, Outcome, Release, Steps (runs)
--                 and Twice prove
--   Heap          kernel/heap.cc, and leak of kernel/heap.h: data and operations; Words, Tiles (blocks
--                 side by side), Links (the list), Search (the loop of malloc), Order, Claim, Release,
--                 Start, Runs and Promises prove
--   Shared        kernel/shared.h: StrongRef, WeakRef; Counts, Update, Change, Drop, Returns,
--                 Operate, Runs and Lives prove
--   Queue         kernel/queue.h; Fifo and Runs prove
--   Delivery, Echo, Resolution  prove of frames that go from one machine to another; Echo of the
--                 answer to a request, and its Reply of what the requester gets
--   Tests         concrete runs, and the theorems at concrete inputs
--
-- State. Each global of the program is a field of World, and a function of the program is a
-- function from the state to its result and the new state. Every public function holds its lock
-- for the whole of its work on the state, so a call is one step. Integers are natural numbers with
-- the wrap of their width written out. A pointer with a length is the list of the bytes at the
-- pointer and the length, none for a null pointer; a buffer's address in a descriptor is its
-- slot's index. A frame that the code lays out in a buffer through packed structs is the list of
-- the structs' bytes in order. What a function pointer runs is the parameter Invoke. The end of
-- the array reply in handle_ipv4 is modelled: a write past it is the outcome overrun. The objects
-- of the file system do not change once they are constructed; their methods are functions of them,
-- with none (or the ReadResult stopped) for a failed assertion or a panic. The frame allocator
-- links free frames through their own first words, so its state has the memory, as a function of
-- addresses; the memory map of the boot loader is an argument, and what the boot loader promises
-- of it is IsMemMap. The heap is a function from the indices of its words; an int is cut to 32
-- bits and its sign extended. References are variables in two lists, over a function from
-- addresses to the middles that they share; the objects they lead to hold no references, and each
-- operation is one step, with the deletions that follow its unlock.
--
-- Loops. Scans over arrays are recursions on the list or on the rounds left. The reclaim loops get
-- the way round from the driver's index to the device's as their number of rounds; the carry loop
-- of checksum16 gets two rounds, which end it from any 32-bit sum. read_all gets a round for each
-- byte it is to read, since each reads one at least. The loop over a directory's entries gets a
-- round for each byte of the directory, which is enough unless an entry has length zero. The loop
-- of malloc gets a round for each word of the heap; no list of available blocks is longer.
--
-- Not modelled: console output; the discovery and negotiation of the PCI device
-- (virtio_net_init_pci); memory barriers, which change no value; UniqueRef of kernel/shared.h;
-- objects that hold references to others; the checks of kernel/heap.cc that nothing switches on;
-- page tables, threads, interrupts, system calls and the rest of the kernel, which depend on the
-- state of the machine.
pub mod Prelude
pub mod NetStats
pub mod Address
pub mod ArpCache
pub mod VirtioNet
pub mod Chat
pub mod Wire
pub mod Udp
pub mod World
pub mod NetProto
pub mod Delivery
pub mod Echo
pub mod Resolution
pub mod Tests
pub mod BlockIo
pub mod RamDisk
pub mod Ext2
pub mod PhysMem
pub mod Shared
pub mod Queue
pub mod Heap
