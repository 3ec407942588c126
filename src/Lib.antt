-- ===== src/Lib.antt =====
-- The debugging tools of the repository, for C and C++ programs: `timecmp` compares timestamps of
-- timers that roll over, `runtrace` records tracepoints in a ring in memory and prints them,
-- `memleak` counts allocations by the line that made them, `mallocoverload` logs the calls of an
-- allocator, `obscurestr` keeps strings out of the binary, and `stopwatch` measures times. They
-- are independent of each other.
--
-- Prelude: the C tests, lists with native indices, words of w bits, bit masks, the arithmetic of
-- rolling counters, and numbers as decimal text.
-- Timecmp (timecmp/timecmp.h) has the comparison functions, generic in the width of the word, and
-- their instances at 32 and 64 bits; an `abort()` is `none`. Timecmp.Rolling
-- (timecmp/timecmp.hpp) is the class template RollingTime, with the integer promotions of its
-- operators. Timecmp.Timer is the specification: the points of a timer, words up to congruence,
-- as a quotient. The theorems are in Timecmp.Compare, Timecmp.Rolling.Laws and
-- Timecmp.Timer.Class. Timecmp.SelfTest (timecmp/test-c.c, timecmp/test-cpp.cpp) is the test
-- program, over the same functions.
-- Runtrace (runtrace/runtrace.c, runtrace/runtrace.h) has the static variables as one record, and
-- commands that end with a value, in an abort, in an access outside an object, or in a wait for a
-- lock that is never released. Build says for what the file is built: the kernel, user space with
-- std::atomic, or user space with builtins. At this commit user space does not compile, because
-- `make_tracept` calls the kernel's `wake_up_interruptible(&read_queue)` outside of any `#ifdef`;
-- the two builds for user space are the file without that call. Runtrace.Text is
-- `__print_trace_point`, which for the log of the kernel has a code in the place of each log
-- level; Runtrace.Pool has `runtrace_reconfigure`, `runtrace_init`, `environment_check`,
-- `runtrace_flush_on_abort` and `runtrace_exit`; Runtrace.Print is the printing loop of
-- `print_trace_stack`; Runtrace.Trace has `make_tracept`, `print_trace_stack` and `sigabort`;
-- Runtrace.Claims has the claims of print buffers in `tpprintf` as steps of any number of
-- threads, and Runtrace.Printf is `tpprintf` of one thread, whose loop has a round for each
-- buffer: one more changes nothing. Runtrace.Device has the handlers of the character device,
-- whose reader has fuel for its rounds, each a return, a wait or a printout of nothing, and
-- sleeps until `make_tracept` wakes it or a signal comes; Runtrace.Writers has `make_tracept` and
-- the copy in `print_trace_stack` as steps of any number of threads, with a lock that does what
-- it is documented to; Runtrace.Life is a program from `runtrace_init` to the printout.
-- Runtrace.History is the specification: a history of entries, newest first, of which the pool
-- holds the last 2 ^ k, and the text that printing them gives.
--
-- Obscurestr (obscurestr/obscurestr.hpp) has the key generator, the encoding that the compiler
-- does, and `deobscure`; the pointer that `obscureStr` returns leads into an object that is gone;
-- the theorems are in Obscurestr.Key and Obscurestr.Code.
-- Stopwatch (stopwatch/stopwatch.h) has the macros as functions, the arithmetic of `double` being
-- a parameter; the theorems are in Stopwatch.Elapsed and Stopwatch.Printed.
--
-- Memleak (memleak/memleak.cpp, memleak/memleak.h) has memory as the links and the records by
-- their addresses and the blocks that the allocator gave out, and commands that end with a value,
-- in `exit`, in an access outside an object, or waiting for the mutex. Memleak.Sites has the list
-- operations and their specification, a sorted list of records; Memleak.Alloc the piggyback
-- header, the allocation and the replacement allocators; Memleak.Report the reports;
-- Memleak.History the calls of an application one after the other, where the log is the list of
-- the messages; Memleak.Log is `ml_log` by itself, with the texts, the file or stderr, and the
-- timestamps. Loops over the list have fuel for their rounds: one more than there are records is
-- enough. What `malloc` gives is an argument.
--
-- Mallocoverload (mallocoverload/mallocoverload.c) has `malloc` and `free` that log and call
-- those of libc, over any heap.
--
-- Integers are bit patterns below a power of two, and the wrap-around of an `int` is written out.
-- Decimal numbers are printed with a fuel of 20 digits, which every 64-bit number fits. The
-- printing loop has as many rounds as there are numbers between its start and the counter, modulo
-- 2 ^ 32. Memory, processors, the environment, the clock and the registration of the device are
-- parameters.
--
-- But for the claims of print buffers and for Runtrace.Writers, one thread runs at a time. Not
-- modelled: the verbose messages of memleak, which memleak.h turns off; the device numbers of
-- runtrace and its warnings and error messages, but for the notice of an underrun; the other test
-- programs.
pub mod Prelude
pub mod Timecmp
pub mod Runtrace
pub mod Obscurestr
pub mod Stopwatch
pub mod Memleak
pub mod Mallocoverload
