-- ===== src/Lib.antt =====
-- krnel: a small 32-bit kernel with its shell, and this library's model of its parts.
--
-- Which file models what:
--   * Heap.antt: kernel/memory.c. A `Store` maps addresses to headers, `Heap` adds `heap_start`; `mem_init`,
--     `kmalloc` and `kfree` are the functions of these names. Heap/Chain gives the abstract view, the list of
--     blocks in address order, on which first fit and merging are defined. The loop of `kmalloc` is on fuel, as
--     much as there are bytes of memory: headers are 16 bytes apart, so a chain is shorter.
--   * CString.antt: kernel/string.c. A pointer is the list of the bytes to the end of its object, and an access
--     outside is `none`. CString/Compare and CString/Case hold the comparing and searching functions, CString/Token
--     `strtok`, CString/Move `memmove`, CString/Number `strrev`, `itoa` and `atoi`, and CString/Format `vsnprintf`.
--     A number has at most ten digits, which is the fuel of the loops that print it.
--   * History.antt: kernel/history.c, the ring of the last fifty commands.
--   * Vga.antt: kernel/vga.c. `Screen` holds the video memory, the cursor and what the display controller was
--     told.
--   * Tty.antt: kernel/tty.c, on the screen of Vga. A switch ends by calling the shell (kernel/shell.c), which draws
--     its prompt or reads a login; the model ends there and says which of the two it calls.
--   * Process.antt: kernel/process.c. The scheduler's loop has fuel for one round of the table. What the interrupt
--     0x20 does, and where the linker puts the stacks, are parameters.
--   * Keyboard.antt: kernel/keyboard.c. The bytes that the controller delivers are a list, and `read_key` is a
--     machine on it that feeds and switches the terminals of Tty. It ends where it calls the shell, since a login
--     reads keys itself, and goes on as a new `read_key` with what the shell leaves.
--   * User.antt: kernel/user.c, with User/Rights for its getters, User/Load for reading the table, and
--     User/Identity and User/Deletion about logging in and deleting. The operations of kernel/fs.c that it calls
--     are the record `Files`; CString compares, copies and prints the strings.
--   * Editor.antt: kernel/kittywrite.c without drawing: a key is a function on the lines and the cursor. Editor/File
--     holds loading and saving.
--   * Ata.antt: kernel/ata.c as a disk of sectors: Ata/Disk holds the tests in front of a transfer and the copy
--     that it makes. The registers of the drive are not part of it.
--   * Ext2.antt: kernel/ext2.c on that disk. Ext2/Layout holds the records on the disk and their bytes,
--     Ext2/Directory adding to directories, Ext2/Lookup finding and unlinking, and Ext2/Mount mounting and
--     formatting. `State` is the disk with the two counters of the allocators. Ext2/Blocks, Ext2/Inodes and
--     Ext2/Table are about blocks and inodes, Ext2/Files about files, and Ext2/Slots gives the abstract view of a
--     directory, a list with one name to a block. A walk of a block has 1024 rounds as fuel, since an entry is not
--     empty. The argument `frame` is what a fresh array on the stack holds, and `kmalloc` a parameter.
--   * Fs.antt: kernel/fs.c on Ext2: paths here, the operations in Fs/Operations, the current directory and
--     `fs_init` in Fs/Directories, and `fs_list` in Fs/Listing. A round of `fs_resolve_inode` takes a byte of the
--     path, and one of `fs_mkdirp` a byte of a buffer of 128; the fuel is the length and 129, and Fs/Paths is about
--     it.
--   * Base.antt: numbers, lists, integers and tests that the others share.
-- Each part's state is a record and each function takes and returns it; a part that calls another one applies its
-- functions to that one's record.
--
-- Not modelled: the shell (kernel/shell.c), kernel/vfs.c, which passes calls on, system calls and plugins, and what
-- only prints; of the disk driver the registers, of kernel/ext2.c `ext2_close`, which frees memory, and the two
-- functions that free blocks and inodes and do nothing. User takes the file operations as a parameter and not yet
-- from Fs. The initialisation of the keyboard is left out as well. The messages that the modelled functions print
-- on errors are not part of the models.
pub mod Base
pub mod Heap
pub mod CString
pub mod History
pub mod Vga
pub mod Tty
pub mod Process
pub mod Keyboard
pub mod User
pub mod Editor
pub mod Ata
pub mod Ext2
pub mod Fs
