-- ===== src/Lib.antt =====
-- MesaOS: the kernel's memory managers, scheduler, terminal, keyboard, editor, C library, file
-- systems, ciphers, firewall and network.
--
-- The program is a kernel for i386 in C++. Its classes keep their state in static fields; here a
-- record stands for the fields of a class, a function by clauses for each operation, from the old
-- state to the new one with what is returned, and lists of segments, frames or calls for what
-- goes to other parts. Machine words are natural numbers, with the wrap-around written out (`% 2
-- ^ 32`).
--
-- How the parts interact: kernel/kernel.cpp gives the physical memory manager the memory map,
-- then sets up the heap, from which the scheduler and TCP take the memory of processes and
-- connections; the timer interrupt calls the scheduler; the virtual memory manager takes its
-- tables and pages from the physical one; the keyboard calls the terminal, the shell and the
-- editor, which writes to the terminal; IPv4 hands packets to TCP, and TCP hands segments with
-- their checksum to IPv4.
--
-- Files:
--
-- Prelude.antt passes on the names of the libraries that are used, with the lists, Boolean tests
-- and bit operations of Prelude/.
--
-- Memory/Pmm.antt is kernel/memory/pmm.cpp: `Pmm` is its static fields, with the bitmap as a
-- function from the index of a word, and the operations have the names of the methods of `PMM`.
-- Pmm/Frames is about single words of the bitmap, Pmm/Invariant about the set of used blocks and
-- its count, Pmm/Allocate about the search and allocation, Pmm/MemoryMap about initialisation and
-- regions, and Pmm/Walk about the walk over the memory map.
--
-- Memory/Vmm.antt is kernel/memory/vmm.cpp: physical memory is a function from the address of a
-- word to the word, next to the physical memory manager, and directories and tables lie in it.
-- Vmm/Tables is about which words they are, Vmm/Space about their frames, Vmm/Fresh about a new
-- table, Vmm/Translate and Vmm/Map about translation and single pages, and Vmm/Clone about copy
-- on write.
--
-- Memory/Kheap.antt is kernel/memory/kheap.cpp: the bump allocator, with memory as a function
-- from addresses to bytes, and `kmalloc`. Kheap/Blocks is about the blocks that are handed out,
-- and Kheap/Kmalloc about the OOM killer.
--
-- System/Scheduler.antt is kernel/scheduler.cpp: the list of processes, with the index of the
-- current one. Scheduler/Switch is about one switch, Scheduler/Fair about runs of timer
-- interrupts, and Scheduler/Pids about histories that create processes too.
--
-- Net/Firewall.antt is kernel/net/firewall.cpp: Firewall/Order is about the decision, and
-- Firewall/Default about changes of the table.
--
-- Net/Arp.antt is kernel/net/arp.cpp, and Arp/Cache is about what it learns and answers.
--
-- Net/Ethernet.antt, Net/Ipv4.antt, Net/Udp.antt, Net/Icmp.antt and Net/Dhcp.antt are the files
-- of these names in kernel/net, over the packets of Net/Packet.antt, which are functions from the
-- offset to the byte. A handler takes what it calls as an argument. Ipv4/Header and Icmp/Echo are
-- about checksums, Dhcp/Options and Dhcp/Lease about the options of a message, and Net/Stack.antt
-- is about packets that go down on one machine and up on another.
--
-- Net/Checksum.antt is the checksum of kernel/net/ipv4.cpp and of kernel/net/tcp.cpp, and
-- Checksum/Verify the test that a receiver makes.
--
-- Net/Tcp.antt is kernel/net/tcp.cpp and kernel/net/tcp.hpp: Tcp/Types has the connection and the
-- table, Tcp/Output `send_packet`, Tcp/Input `handle_packet`, and Tcp/Sockets the socket calls.
-- Tcp/Ring and Tcp/Stream are about the receive buffer, Tcp/Machine and Tcp/Handshake about the
-- states, Tcp/Handles about socket descriptors, and Tcp/SendWindow about the data that is sent.
--
-- Libc.antt is kernel/libc/string.cpp without `itoa`: Libc/Move is about the routines on memory,
-- and Libc/Strings about those on strings that end.
--
-- Fs/Ramfs.antt is kernel/fs/ramfs.cpp: nodes are known by their addresses, as the table and a
-- caller share them. Ramfs/Names is about the comparison of names and the search by it, and
-- Ramfs/Data about what the files hold and about the table. Fs/Vfs.antt is the path lookup of
-- kernel/fs/vfs.cpp, and Vfs/Path compares it with a lookup name by name.
--
-- Fs/Mesafs.antt is kernel/fs/mesafs.cpp over a disk that is a function from sectors to bytes.
-- A copy past the end of an array, which is undefined in C++, ends an operation there with the
-- result `none`; as saving valid metadata makes such a copy, what `write` and `create_file` do
-- before it has a definition of its own. Mesafs/Metadata has the table and its saving;
-- Mesafs/Sectors is about the loops over sectors, Mesafs/Files about what files hold, and
-- Mesafs/Create about new files.
--
-- Fs/Crypto.antt is kernel/fs/crypto.cpp, with a module for each class: Crypto/Tables has the
-- tables, Crypto/Aes128 the cipher, Crypto/HmacSha256 the code for integrity, Crypto/KeyManager
-- the keys and Crypto/AuthenticatedAes the cipher with the code. Aes128/Field is about the
-- arithmetic of bytes, Aes128/Columns and Aes128/Rounds about the inverse of a block's
-- encryption, and Aes128/Buffer about the cipher in use; HmacSha256/Reads and HmacSha256/Words
-- are about what is hashed and the bytes of the result; KeyManager/Keys and KeyManager/Passwords
-- about calls and passwords; AuthenticatedAes/Sealed about what is accepted.
--
-- Drivers/Vga.antt is kernel/drivers/vga.cpp, with its colours in Vga/Color: Vga/Cursor is about
-- the bounds of the cursor and the buffers, Vga/Ttys about the four terminals, Vga/Text about
-- written text, and Vga/History about line feeds and scrolling back. Drivers/Keyboard.antt is
-- kernel/drivers/keyboard.cpp, and Keyboard/Typing is about sequences of scan codes.
--
-- Apps/Nano.antt is kernel/apps/nano.cpp, whose file system is a parameter; Nano/Editing is about
-- what keys do to the text.
--
-- The modules called Tests hold runs on concrete inputs.
--
-- Fuel: the loop over a region of the memory map has 2 ^ 20 + 1 rounds, as 2 ^ 20 blocks of 4096
-- bytes fill the address space; the walk over the map has 2 ^ 32 + 1, as it only goes to higher
-- addresses; the checksum folds in three rounds; a loop over a string has 2 ^ 32, one for each
-- address; the path lookup has the length of the path; the loop over DHCP options has one round
-- for each byte of the message; the loops of MesaFS over sectors have one round for each byte;
-- the move of the editor's text to the left has 2 ^ 12, the size of its buffer.
--
-- Not modelled: log messages and panics, of which only the fact of the panic is kept;
-- `Scheduler::remove_process`, which the heap calls and the repository does not hold, so it is a
-- parameter; the copy of a process's name, which must fit its field; and the other parts of the
-- kernel: the set-up of paging, the other drivers, the shell and the other protocols.
pub mod Prelude
pub mod Apps
pub mod Drivers
pub mod Fs
pub mod Libc
pub mod Memory
pub mod Net
pub mod System
