-- ===== src/Lib.antt =====
-- JOS, a small x86 teaching kernel: its boot loader, C library routines, formatted output, console and
-- kernel monitor.
--
-- Parts and files. The kernel prints through kern/printf.c, which runs the formatter of
-- lib/printfmt.c and hands each character to the console of kern/console.c; the string routines of
-- lib/string.c serve all of it. The kernel monitor of kern/monitor.c reads a line with lib/readline.c,
-- runs the command that it names, and prints a backtrace with the function names that kern/kdebug.c
-- finds in the kernel's stabs. boot/main.c loads the kernel from the disk; kern/init.c starts it.
--   CString (Defs, Strtol): the routines of lib/string.c that read: strlen, strnlen, strcmp, strncmp,
--     strchr, strfind, memcmp, memfind, strtol, under their names. A pointer argument is the list of
--     the bytes from it to the end of its object; `none` is a read past that end. Scan, Find,
--     Compare, Strtol/Value and Strtol/Numeral hold the proofs.
--   Memory (Defs, Portable): the routines of lib/string.c that write: memset, memmove (in Defs the
--     variants in assembly, which are the ones compiled, in Portable those of the other branch of
--     `#if ASM`), memcpy, strcpy, strncpy, strlcpy, over a function from 32-bit addresses to bytes.
--     Move, Set and Copy hold the proofs.
--   Printfmt (Number, Format, Print, Buffer, Varargs): lib/printfmt.c. printnum; vprintfmt as `scan`
--     (the flags up to the conversion character), `convert` (one conversion) and the main loop;
--     vsnprintf and snprintf over the memory of Memory. The arguments are a list; Varargs has the
--     va_list of inc/stdarg.h, the pointer to the caller's stack that this list stands for, with
--     getuint and getint on it. Digits, Fuel, Total, Text, Strings and Caller hold the proofs.
--   Console (Io, Output, Input): kern/console.c. The ports and the devices behind them are a
--     parameter, `Io`; Output has serial_putc, lpt_putc, cga_putc, cons_putc and cputchar on the
--     screen's state; Input has the input buffer with cons_intr, and serial input. Ring, Screen and
--     Trace hold the proofs.
--   Cprintf: kern/printf.c over the console's screen.
--   Keyboard (Keys, Keymap, Decode): the keyboard part of kern/console.c. Keys has codes and ports of
--     inc/kbdreg.h, Keymap its tables, Decode kbd_proc_data, whose pure part is `decode`, and
--     kbd_intr. Modifiers and Range hold the proofs.
--   Readline (with Readline/Edit, Readline/Echo): lib/readline.c. One character of the loop is
--     `key_of`; the loop runs over the characters that getchar returns. Edit and Echo hold an
--     account of the line and of what is echoed, and the proofs.
--   Tty: what the line editor and the monitor use of the console (cprintf, getchar, cputchar) as
--     a record of operations, and, as `Speaks`, the laws that say where the calls of cprintf lead from
--     a state, for the calls that return. The kernel's console fills them (Terminal/Displayed).
--   Monitor (Parse, Command): kern/monitor.c. `parse` is the loop of runcmd that cuts the line into
--     arguments; Command has the three commands, runcmd and monitor. Words and Arguments hold the
--     proofs on the line, Dispatch, Backtrace and Answers those on the commands, and Display that on
--     runcmd over the kernel's console.
--   Kdebug (Search, Eip): kern/kdebug.c. Search has stab_binsearch over a table of stabs, Eip has
--     debuginfo_eip. Invariant, Bracket, Found and Ends hold the proofs on the search, Totality and
--     Function those on debuginfo_eip.
--   Queue (Links): the list macros of inc/queue.h over a heap, a function from addresses to
--     elements, and cells that hold a pointer. Chain says which lists a heap holds, Insert and Remove
--     hold the proofs.
--   Mmu (Paging, Segments, Gates, Flags, Rounding, Layout): the address macros, segment descriptors
--     and gates of inc/mmu.h, as words and as their fields, its constants of registers and segment
--     types, the rounding macros of inc/types.h, and the addresses of inc/memlayout.h. SelfMap holds
--     the proof on its `vpt` and `vpd`.
--   Cpu (Strings, Registers): inc/x86.h. Strings has the port instructions, with the devices behind
--     the ports as a parameter, `Bus`; Registers those on control registers, flags, stack and TLB,
--     over the record `Cpu`, and read_eip of kern/monitor.c. Transfer and Tlb hold the proofs. The
--     drivers of the console use the instructions by a parameter of their own, `Io`, those of the boot
--     loader by `Ports`, which Boot/Insl makes of a `Bus`.
--   Terminal (Devices): the rest of kern/console.c, on top of Console and Keyboard: cons_init with
--     cga_init and serial_init, cons_getc and getchar, and the console as a Tty. Getc, Getchar,
--     Displayed and Start hold the proofs. Machine is one to run tests on.
--   Init: kern/init.c, over Monitor and Terminal. The variables of the console are where the linker
--     puts them, `Statics`, and are read from the memory that memset has cleared. Init/Order,
--     Init/Panic and Init/Startup hold the proofs.
--   Boot (Disk, Load): boot/main.c. Disk has waitdisk and readsect over the ports, which are a
--     parameter, Load has readseg and bootmain. Sector says what an ATA disk is; Sector, Segment
--     and Kernel hold the proofs, Insl a lemma on the port instructions of Cpu.
--   Nsipc (Defs, Sockets, Messages): lib/nsipc.c and lib/sockets.c. What their headers declare is a
--     parameter, `Layout`: the request codes, the offsets of the members, the page. The calls of the
--     kernel are one too, `Ipc`. Messages says what a call asks of the server; Words and Members have
--     lemmas on the page, Requests and Replies the proofs.
--   Base: shared names, tests on numbers, lists, integers and words.
--
-- State. Globals are fields of a record that a function takes and returns (Screen, Cons, SprintBuf).
-- An `int`, `unsigned`, `long` or pointer is its 32-bit pattern and a `char` its byte where the code
-- depends on the width; the `int` result of a comparison is an integer.
--
-- Fuel. printnum recurs on 64 units, one for each binary digit of an unsigned long long. vprintfmt
-- takes one unit for each literal character and each escape sequence; the length of the format and
-- nine more are enough, nine being the length of the longest format that it calls itself with.
-- strcpy and cons_intr take one unit more than there are characters. The waits of serial_putc and
-- lpt_putc recur on the 12800 rounds that the code allows. stab_binsearch takes two units for each
-- stab of the interval and two more; readline takes one for each character typed; the parser of
-- runcmd takes the length of the buffer. getchar takes one for each poll, mon_backtrace one more
-- than there are frames, and the monitor's loop one for each line. The boot loader's loop over
-- sectors takes as many units as the count has sectors, and three more; each wait for the disk has
-- the fuel of its caller. Where i386_init and runcmd run on the kernel's console, one number is the
-- fuel of each call of cprintf and of cons_intr; 30 are enough for the messages of kern/init.c and of
-- runcmd, and the lines of a backtrace and of kerninfo are assumed to be formatted with it.
--
-- Bounds. Objects are shorter than 2^31 bytes and field widths below 2^31, so the `int` counters do
-- not overflow; blocks do not reach the end of the address space.
--
-- Not modelled: inc/ns.h, inc/lib.h and lwip/sockets.h, which are not in the repository; breakpoint
-- of inc/x86.h, which enters a trap handler that is not there either; the task state of inc/mmu.h,
-- which only the processor reads; the assembly files. The hardware of the display, of the disk and
-- behind the ports, and what cpuid answers, are parameters.
pub mod Base
pub mod CString
pub mod Memory
pub mod Printfmt
pub mod Console
pub mod Cprintf
pub mod Keyboard
pub mod Mmu
pub mod Kdebug
pub mod Queue
pub mod Tty
pub mod Readline
pub mod Monitor
pub mod Boot
pub mod Terminal
pub mod Init
pub mod Nsipc
pub mod Cpu
