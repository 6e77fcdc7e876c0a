-- ===== src/Lib.antt =====
-- lzUtils, the C library of the audio box (app/lzUtils), modelled on values. The library is a set
-- of parts that the programs of app/multiBox link: byte rings between an audio producer and a
-- consumer, a detector of speech, queues between threads, a growing buffer, base64, messages over
-- named pipes, the command lines they carry, interval timers, servers on sockets and the volume of
-- a sound card. Of the programs, the part that hands out the samples of the acceleration sensor is
-- modelled, and three classes of app/cppUtils. The parts and the files that model them:
--
--   Ccsrb    app/lzUtils/ccsrb/ccsrb.c           the chunk ring: query for a chunk, fill it, sync it
--   Csrb     app/lzUtils/csrb/csrb.c             the ring whose block has a mirror half
--   Vad      app/lzUtils/vad_op/vad_op.c         the energy of a chunk and the speech state machine
--   Dll      app/lzUtils/common/dll_fifo.c       the doubly linked queue, on an explicit heap
--   Dfq      app/lzUtils/dfq_fifo/dfq_fifo.c     the bounded queue for threads, over Dll
--   Autom    app/lzUtils/autom/autom.c           the buffer that grows as it is written
--   Base64   app/lzUtils/common/misc.c           base64Encode and base64Decode
--   Fifo     app/lzUtils/common/fd_op.h, app/lzUtils/un_fifo_ops/un_fifo_ops.c and
--            app/lzUtils/user_fifo/user_fifo.c   messages in frames over a pipe, and its opening
--   Command  app/lzUtils/common/misc.c and app/lzUtils/user_fifo/user_fifo.c
--                                              the words of a command line, and the command table
--   Timer    app/lzUtils/common/px_timer.c      deadlines and times that have passed
--   Alarm    app/lzUtils/trd_timer/trd_timer.c and app/lzUtils/user_timer/user_timer.c
--                                              the setting of a timer of the system
--   Sockets  app/lzUtils/ut_socket/ut_socket.c   clients and servers: a round of select or of epoll
--   Mixer    app/lzUtils/alsa_ctrl/mixer_ctrl.c  the volume and the channel of a sound card
--   Gsensor  app/multiBox/src/sensor/gsensor.cpp the acceleration sensor: who is given its samples,
--                                              the thread that reads them, the registers
--   Crc      app/cppUtils/CrcTool/CrcTool.cpp    checksums of 16 and 32 bits by tables
--   Url      app/cppUtils/UrlContex/UrlContex.cpp
--                                              the request line of HTTP and its parameters
--   MemPool  app/cppUtils/MemPool/MemPool.cpp    blocks that are handed out and given back
--   Common   nothing of the code: tests on numbers, arrays, machine words, integers
--
-- Dfq calls the operations of Dll, as the code does; in Fifo, user_fifo_write_fmt calls
-- user_fifo_write_str, that un_fifo_ops_write, that un_write. Command takes `realloc` from Autom, and
-- Alarm the times of Timer. The other parts stand alone.
--
-- How the code is read. An operation keeps the name of its C function, less the prefix of its part:
-- `Dll.push_back` is dll_fifo_push_back, `Dfq.td_write` is dfq_fifo_tdWrite. A struct is a record,
-- and a function that writes through its handle returns the new record. Handles are not NULL: a
-- function is what follows its test of the handle. Mutexes are held from the first to the last line
-- of an operation, so operations are taken whole; the waits on a condition in Dfq are not, and what
-- the other threads do there is an argument. Allocations succeed or fail by an argument, which is
-- the address for a node of Dll. An access out of an array, or through a pointer to no node, has no
-- result (`none`). Log output is left out.
--
-- Machine words. The target is 32-bit ARM: a `size_t` has 32 bits and a `char` is an unsigned byte.
-- Sums and differences of sizes are taken modulo 2^32 where the code does not keep them in range.
-- Sizes are natural numbers elsewhere, and the theorems say which sizes must fit.
-- A `long` has 32 bits: a sum of times that does not fit one has no result, and the sum of two volumes
-- in Mixer wraps around; the theorems say which values must fit.
--
-- What the system returns is an argument wherever a function depends on it: the replies of the kernel
-- in Fifo, what `select`, `epoll_wait` and `accept` report in Sockets, what `poll`, `read` and `ioctl`
-- return in Gsensor. The mixer of ALSA is a record of its two volumes and of the calls that set
-- them, with what ALSA documents of them as a second record. Floats of Gsensor are their bit
-- patterns, and the multiplication by a constant is an argument.
--
-- Loops. Loops over an array are recursions on it. The loops of Dll that follow links, the pieces
-- and the frames of Fifo run on fuel: a round for each cell and one more, a round for each piece, a
-- round for each frame and one more are enough, and the theorems have that as a hypothesis. Loops
-- that wait (the readers of Dfq, un_write) are recursions on the list of what happens in the waits
-- or of the replies of the kernel. The thread of Gsensor runs on fuel over the rounds of its reading
-- loop, where two rounds more than there are events are enough for it to end. A server of Sockets
-- never ends, and one round of it is a function. The recursion of Url runs on fuel for the length of
-- the string, which is enough.
--
-- Not modelled: the release of memory by destroy functions of the rings and of Autom, the macros on
-- semaphores, the log (slog), the calls of ALSA in alsa_ctrl.c, process control and file locks in
-- misc.c, the copies of files (fd_op.c, fp_op.c), the set-up of socket addresses, and the threads
-- and signals of timers, most of which are calls of the system; nor the other C++ programs of
-- app/multiBox and the other classes of app/cppUtils, which are clients of the library or stand
-- beside it; app/multiBox/src/gyrosensor/gsensor.c is the file that Gsensor's source was copied
-- from.
pub mod Alarm
pub mod Autom
pub mod Base64
pub mod Ccsrb
pub mod Command
pub mod Common
pub mod Crc
pub mod Csrb
pub mod Dfq
pub mod Dll
pub mod Fifo
pub mod Gsensor
pub mod MemPool
pub mod Mixer
pub mod Sockets
pub mod Timer
pub mod Url
pub mod Vad
