-- ===== src/Lib.antt =====
-- NansOS: the kernel's own logic, modelled and proved.
--
-- The program is a small x86_64 kernel in C (src/impl/). Interrupts bring bytes from the keyboard
-- and the mouse. The keymap turns scancodes into characters, which go to the setup wizard of main.c
-- until the setup is complete and to the window manager after that. Text goes to the console. The
-- window manager takes its memory from the allocator of stdlib.c, which takes pages from mmu.c. Files
-- are reached by descriptors of the virtual file system, behind which the RAM disk lies. The windows are
-- drawn on a back buffer of the VGA driver, which is copied to the screen. Pages are mapped by mmu.c,
-- and disks are read and written over the ports of the IDE controller.
--
-- Files, and the code that each models:
--   Base.antt      names, tests, lists, integers and byte tables that all share
--   Cstring.antt   src/impl/kernel/string.c: memory is a function from addresses to bytes, and each
--                  function takes and returns it (Copy, Measure, Build)
--   Printf.antt    src/impl/kernel/string.c: print_num, vsprintf and sprintf; a format and what is
--                  written are lists of bytes (Digits, Formats)
--   Malloc.antt    src/impl/kernel/stdlib.c and mmu_alloc_page of src/impl/kernel/mmu.c: `Heap` is
--                  the chain of block headers, the next free page and the bytes (Chain, Alloc,
--                  Release, Blocks, Realloc)
--   Ramdisk.antt   src/impl/kernel/ramdisk.c, ramdisk.h: `RamDisk` is the table of files, the
--                  account of the blocks and the bytes (Names, Dictionary, Space, Contents)
--   Vfs.antt       src/impl/kernel/fs.c, fs.h: `Vfs` is the table of descriptors, the mounts and the
--                  state behind them; `Driver` is the interface to a file system, and
--                  Vfs/OnRamdisk.antt fills it with the RAM disk (Paths, Descriptors, Opening)
--   Storage.antt   src/impl/drivers/storage/storage.c, storage.h: the registry of devices, over the
--                  operations of their drivers (Registry)
--   Keymap.antt    src/impl/drivers/keyboard/keymap.c, keymap.h (Chars, Modifiers)
--   Mouse.antt     src/impl/drivers/mouse/mouse.c, mouse.h: the packets (Bounds, Packets)
--   Paging.antt    src/impl/kernel/mmu.c: `Mmu` is the root register, the next free page and the
--                  memory in words (Entries, Tables, Lookup, Stores, Ensure, Walk, Mapping,
--                  Unmapping)
--   Pic.antt       src/impl/drivers/pic/pic.c and src/impl/drivers/port_io/port.c, over a record of
--                  the port instructions (Masks)
--   Interrupts.antt
--                  src/impl/kernel/idt.c, isr.c: the gates, and what each handler does as a list of
--                  actions, which System carries out with the drivers (Gates, System, Drivers,
--                  Acknowledged)
--   Timer.antt     src/impl/drivers/pit/pit.c (Frequency, Beats)
--   Serial.antt    src/impl/drivers/serial/serial.c (Sent)
--   Rtc.antt       src/impl/drivers/rtc/rtc.c, rtc.h: the clock, over the same record (Time)
--   Keyboard.antt  src/impl/drivers/keyboard/keyboard.c and the initialisation in
--                  src/impl/drivers/mouse/mouse.c: the controller behind two ports (Typing, Silence,
--                  Starting)
--   Ide.antt       src/impl/drivers/storage/ide.c, ide.h: waits, commands, transfers, and the
--                  identification of a device (Waiting, Landed, Reading, Identify, Made)
--   Vga.antt       src/impl/drivers/video/vga.c, vga.h: `Vga` is the mode and the two buffers
--                  (Pixels, Rect, Rounds, Line, Scene)
--   Console.antt   src/impl/x86_64/print.c: screen memory and cursor (Scroll, Cursor)
--   Setup.antt     src/impl/kernel/main.c: the setup wizard and keyboard_char (Run)
--   Window.antt    src/impl/drivers/video/window.c, window.h: `Wm` is the list of windows, the active
--                  and the dragged window and the memory of the windows (Stack, Valid, Mouse, Close,
--                  Hide, Steps); Window/Desktop.antt joins it to the screen of Vga.antt and adds
--                  the painters and the terminal (Painters, Front, Typed)
-- A function keeps its C name; a C function that is one definition here may have helpers named for
-- what they do. The witnesses of the theorems are in the Tests.antt of each part.
--
-- Conventions. A machine word is a natural number with its wrap-around written out, and a subtraction
-- that may pass 0 adds the modulus first. A pointer is a number, with 0 for NULL. A result of `none`
-- stands for a use of memory that the code must not make (a freed window, a block that `malloc` did
-- not return, a null pointer that is followed), or for fuel that ran out.
--
-- Fuel. Loops up to a terminator in string.c take fuel, and the theorems ask for one more than the
-- length of the string. `print_num` runs on 65 rounds, more than the digits of a 64-bit number, and
-- `vsprintf` on one for each byte of the format and one more. The wait of the clock takes fuel, one
-- round where the clock does not update. `vfs_normalize_path` takes fuel for each byte of the path
-- and one more.
-- `serial_write_string` takes fuel for each byte, one more than the polls for which the port stays
-- busy, and the flush of the keyboard controller one more than the bytes that it and
-- its devices hand over before they get another command. A line takes
-- 65536 rounds, as many as it can have pixels. Where the code counts a timeout down, the model does.
--
-- Not modelled: messages to the serial port and the console, except those of the setup wizard, of the
-- interrupt handlers and the heartbeat of the timer; the bounded printf functions; system information, which
-- copies what CPUID gives; the boot order; and the assembly code.
pub mod Base
pub mod Keymap
pub mod Interrupts
pub mod Cstring
pub mod Malloc
pub mod Paging
pub mod Ramdisk
pub mod Window
pub mod Console
pub mod Mouse
pub mod Setup
pub mod Vfs
pub mod Vga
pub mod Storage
pub mod Printf
pub mod Pic
pub mod Rtc
pub mod Serial
pub mod Timer
pub mod Keyboard
pub mod Ide
