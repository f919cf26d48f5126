-- ===== src/Lib.antt =====
-- Verification library for the programs of this repository.
--
-- Lsh models the shell in lsh/: Lsh/Utility.antt is lsh/utility.c and the list macros of
-- lsh/utility.h, Lsh/Parser.antt and the files below it are lsh/parser.c, Lsh/Job.antt is
-- lsh/job.h and lsh/job.c, Lsh/Execute.antt and the files below it are lsh/execute.c,
-- Lsh/Interpret.antt is `interpret_line` with the table of built-in commands, and Lsh/Shell.antt is
-- lsh/main.c.
--
-- Minitalk models minitalk/: Minitalk/Reading.antt is `read_line`, Minitalk/Server.antt the table of
-- users and the first loops of server_main.c, Minitalk/Menu.antt its last loop and the main loop.
-- Fuse models fuse/: Fuse/Crypt.antt is ssl-crypt.c, Fuse/Path.antt is path_util.c and
-- Fuse/Operations.antt the operations of realmain.c. The files below or beside these hold the
-- theorems, and the Tests files apply them to concrete inputs.
--
-- Numbers.antt is the loops of asm/primes/primes.c and asm/gcd/gcd.c.
--
-- How the parts of the shell meet: `main` runs `start`, whose loop prints the pending jobs, reads a
-- line and hands it to `interpret_line`; this parses it into a job on the heap, and runs a built-in
-- command or `start_job`. All of them work on one record, Shell, with the heap of jobs, the three
-- global lists of handles and the effects so far. A signal about children is an event between two
-- lines, which runs `handle_chld`. A `longjmp` is a result of its own, and `main` goes on to
-- `cleanup`. Undefined behaviour in C is the result `fault` of Prelude/Run.antt.
--
-- What the kernel answers (waitpid, read, select, the calls of the file system) is an argument, as
-- finite lists in the order of the calls, so every loop is structural recursion and none has fuel but
-- the one of gcd.c, whose condition fails after as many turns as the first number says.
-- The loop over a line in `read_line_internal`, which may not end, has its end as a result. Sizes are
-- those of the code: 20 arguments, 16 users, buffers of 256, 512, 2048, 4096 and 8192 bytes; a size_t
-- keeps its wrap-around where the code can reach it, and an int that passes its greatest value is a
-- fault.
--
-- The start of a pipeline (Lsh/Execute/Launch.antt) works on the shell's table of descriptors; a child
-- gets a copy and runs where it is forked, up to its program. What it writes to its error pipe is what
-- the shell reads there. The kernel is the record Kernel of Lsh/Execute/Pipes.antt; the abstract view
-- of a pipeline is in Lsh/Execute/Launch/Pipeline.antt.
--
-- Not modelled: signal masks and handlers, the terminal's settings, the wait of the first child for
-- the control pipe, the prompt and other output but the reports on jobs, the fields `pid` and `pgid`
-- of a process, the set-up of sockets and of FUSE. OpenSSL is the parameter Openssl of
-- Fuse/Crypt.antt; what a theorem needs of it stands among its hypotheses. The theorems on the whole
-- shell leave out `fg`, `bg` and redirections, and blank lines and signals about other children, which
-- can fault; these have theorems of their own.
pub mod Prelude
pub mod Libc
pub mod Lsh
pub mod Minitalk
pub mod Fuse
pub mod Numbers
