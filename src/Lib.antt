-- ===== src/Lib.antt =====
-- A verification library of ZareboonOS, a small 32-bit operating system: its keyboard driver, kernel
-- heap, disk driver, FAT32 file system, strings, shell, program loader, frame buffer, graphics
-- display, text console, clock, and two of the programs that it runs.
--
-- The keyboard's interrupt handler puts characters into a ring that the shell's loop and the
-- programs read. The shell edits a line, splits it, and calls the file system, the program loader
-- or the screen. The file system stands on a driver that reads and writes sectors. The graphics
-- display takes its buffers from the heap and copies them to the frame buffer, to which the text
-- console draws its glyphs; the clock prints through the console.
--
-- Which file models which part:
-- - Keyboard: src/keyboard.c. The static variables are a record; the byte that the handler reads from
--   the port, and whether a program runs, are arguments. Keyboard/Queue holds the abstract queue,
--   Keyboard/Handler the handler.
-- - Heap: src/stdlib.c. The chain of headers from free_list on is the list of its blocks, with their
--   addresses; kfree is modelled on pointers to the memory of a block of the chain. Heap/Chain, Heap/Alloc and Heap/Release are on the chain, kmalloc and kfree.
-- - Fs: src/fs.c. Fs/Device is the interface of the sector driver (ata_init, ata_read_sector and
--   ata_write_sector of src/ata.c), a parameter throughout; IsReliable says what a driver that works
--   does within its size. Fs/Volume has the state, fs_init, read_cluster and write_cluster; Fs/Fat the
--   table; Fs/Names the 8.3 names; Fs/Entries the directory entries; Fs/Read, Fs/Write and Fs/Dirs the
--   functions on files and directories. Below Fs/Write, Rounds and Chains follow alloc_and_write,
--   Stored the entry, Written the whole write from the emptied entry on, and RoundTrip the read back.
-- - Strings: src/string.c and src/args.c.
-- - Shell: src/shell.c. What a command calls of other parts is a list of values, in order.
-- - Editor: build/zrn/projects/Editor/src/buffer.c and main.c.
-- - Programs: src/loader.c and src/syscall.c.
-- - Spoom: build/zrn/projects/spoom-game/src/game.c, level.c and menu.c.
-- - Video: src/video.c. Memory is bytes by address. Video/Rows, Video/Laws and Video/Runs say what the
--   screen shows after each call; the assembly instructions that store words are Video.store_words.
-- - Display: src/display.c, over the heap's allocator and the frame buffer. The words of the two
--   buffers are apart from the frame buffer. Display/Mirror has the invariant, Display/Open, Draw, Fill
--   and Flush are on display_open, display_pixel, display_fill and display_present.
-- - Console: src/console.c, src/cursor.c, src/font.c, and in Console/Format src/stdio.c: print is the
--   list of its calls of the console, for formats shorter than 65536 characters, the range of its
--   uint16_t index. Its loop takes as much fuel as the format has characters, and one.
-- - Clock: src/time.c. Clock/Sleep is on sleep, Clock/Face on the printed time; the registers of the
--   real-time clock are a function of their numbers.
-- - Ata: src/ata.c. The instructions that reach the ports are a parameter, Ata.Ports; Ata.Reads.IsDrive
--   says what a drive that works answers: it takes registers, commands and data only while it is not
--   busy, so the driver's waits count. A wait for the drive ends after 1000000 readings.
-- - Prelude: what the others share.
--
-- An array of bytes is a function of the index, or a list where its bounds matter. Integers are
-- native natural numbers, with the wrap of an unsigned integer written out where it can occur. A
-- static buffer whose old bytes a failed read leaves in place is part of the state. The buffers of
-- fs.c for a cluster have 16384 bytes; the theorems are on volumes of at most 32 sectors a cluster,
-- which fit them.
--
-- A loop along a chain of clusters takes fuel, one for each cluster and one for the end of the
-- chain: a chain that is a cycle does not end in the code either. Without fuel left the result is
-- `none`. alloc_and_write takes more fuel than bytes, since each round stores one at least. sleep
-- takes as much as it reads the ticks. The loops of strcmp, strlen and of skipping spaces take fuel
-- as well; the shell gives them 257, more than the 256 bytes of a line; print_number takes 32, the
-- room of its buffer. Every other loop is structural, by the rounds it has left.
--
-- Not modelled: the floppy driver and the interrupt table, the program API, what the programs
-- draw, the loader's jump into a program, the endless loops around the steps, and what an access past
-- the end of an array does.
pub mod Prelude
pub mod Keyboard
pub mod Heap
pub mod Fs
pub mod Strings
pub mod Video
pub mod Display
pub mod Console
pub mod Clock
pub mod Ata
pub mod Shell
pub mod Editor
pub mod Spoom
pub mod Programs
