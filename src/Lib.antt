-- ===== src/Lib.antt =====
-- A collection of C and C++ demonstration programs. Each program stands alone: they share no state
-- and call one another nowhere, so the library has one tree of modules for each program it models.
--
-- Account: googletest/gmock/account_service. `debit`, `credit` and `transfer`, with the interface
-- `AccountManager` as a record of operations; a `long` has 64 bits and an overflow has no outcome.
--
-- Accumulate: C++11/Cpp-Concurrency-in-Action/chap2/2_8.cpp, `parallel_accumlate`, for any type with
-- an associative sum and any number of processors.
--
-- Aes: aes/encryptor.cpp and aes/main.cpp. `initialize`, the two branches of `encrypt_block`, and the
-- `main` that encrypts with one `Encryptor` and decrypts with another, over buffers of 1024 bytes in
-- which every access is checked. mbedTLS is the record `Mbedtls`; Aes.Laws states what is relied on.
--
-- Barrier: barrier_cpp11/main.cpp, `Barrier`: the calls of `wait` by any number of threads, as steps on the
-- counter and the place of each thread.
--
-- Base: numbers, tests, lists, the integers `ℤ`, texts as lists of bytes, `decimal` (`%u`) and `atoi`.
--
-- CipherPadding: mbedtls/padding/main.cpp, `test`, over buffers of 1024 bytes in which every access is
-- checked. mbedTLS is the record `Cipher`.
--
-- Epoll: epoll/server.c. `setnonblocking`, `addfd`, `lt` and `et` over the record `System` of system
-- calls; Epoll.Laws states how sockets that do not block behave. The `while (1)` of `et` runs on fuel:
-- two rounds more than there are bytes are enough. `main` is in Epoll.Server, over the calls that
-- set the sockets up as the record `Startup`; its `while (1)` has one round for each answer of
-- epoll_wait.
--
-- Gzip: zlib/gzip/main.cpp, `gzcompress` and `gzdecompress` over the record `Zlib`; Gzip.Laws states what
-- is relied on, and Gzip.Codec what makes zlib a codec. More fuel than there is input and room for output
-- together is enough. Gzip.Program is `main`, over the record `GzFile`: more fuel than there are bytes in
-- the file.
--
-- Hierarchy: C++11/Cpp-Concurrency-in-Action/chap3/3_8.cpp, `hierarchical_mutex`: `lock`, `try_lock` and
-- `unlock` on a state of any number of threads and mutexes. Hierarchy.Stacks keeps what each thread
-- holds, and Hierarchy.Cycles runs guards, which unlock in the opposite order.
--
-- IntervalTimer: timer/main2.cpp, `Timer`: the controller that sets and stops it and the thread that waits
-- and calls back, as steps.
--
-- Jpeg: jpeg2/main.cpp. `compress_jpeg_to_mem`, `compress_jpeg_to_file`, `CompressJPEG` (`compress_rgb`),
-- `decompress_jpeg_from_mem`, `decompress_jpeg_from_file`, `DeompressJPEG` (`decompress_plain`) and
-- `test_decompress_from_file` (`recompress`), over the record `Libjpeg`; Jpeg.Laws states what is relied
-- on, with an arbitrary loss in the pixels. The loops over the scan lines get one round more than
-- there are lines. Jpeg.Reading is `read_jpeg_file`, Jpeg.Drawing the tests that draw an image, but for
-- the one that takes the time. Jpeg.Turbo is jpeg/main.cpp, the same with TurboJPEG, over the record
-- `TurboJpeg`.
--
-- Monitor: C++11/Cpp-Concurrency-in-Action, the thread-safe queues of chap6/threadsafe_queue.h,
-- chap6/thread_safe_queue.h and chap4/4_5.cpp (`chunk_queue`) in Monitor.Queues, and the stacks of
-- chap6/threadsafe_stack.h and chap3/3_5.cpp (`printing_stack`) in Monitor.Stacks. A class says what its
-- calls do under the mutex; the step relation `Step` interleaves the calls of any number of threads, with
-- the mutex, the condition variable, spurious wakeups and failing allocations. What a call does under the
-- mutex is one step of `Step`; in Monitor.Locking it begins with what it reads when it takes the mutex and
-- ends with what it writes, and Monitor.Locking.Atomic compares the two.
--
-- MyString: googletest/gtest/sample2.h and sample2.cc, `MyString`, over a heap of the arrays of `new
-- char[]`: every member, for any number of objects and with a `new` that may fail. MyString.Values says
-- what the calls do by the contents of the objects alone.
--
-- Nice: libnice/examples/simple-example.c, an ICE client. `parse_candidate`, `parse_remote_data` and
-- `print_local_data` are in Nice.antt under their own names; GLib's splitting and libnice are the
-- records `Glib`, `Addresses` and `Agent`. Nice.Laws states what is relied on of them, and
-- Nice.Splitter is a splitter that meets it. Nice.Session has the callbacks and the main loop as steps
-- on a state: which watches are registered, what was sent, whether the loop runs. Nice.Setup is `main`: its
-- arguments, and the agent that it sets up over the record `NewAgent`. Nice.Threaded is
-- libnice/examples/threaded-example.c: the same exchange in a second thread, as actions of the two
-- threads with the two condition variables and the flags between them.
--
-- Primes: googletest/gtest/sample1.cc (`Factorial`, `IsPrime`) in Primes.antt, and the two prime
-- tables of googletest/gtest/prime_tables.h in Primes.OnTheFly and Primes.PreCalculated. An `int` has
-- 32 bits; an overflow and an access out of bounds make the outcome `undefined`. Every loop gets as
-- much fuel as its counter can use, and each theorem that says what is returned says so outright.
--
-- Queue: googletest/gtest/sample3-inl.h, the linked queue `Queue<E>`, over an explicit heap: a call
-- reads, writes, allocates and deletes nodes, and a stray access is a fault. `Clear` and `Map` get
-- `size_` rounds (and one more), which the theorems show to be enough. Queue.Shape relates a heap to
-- the list that it stands for.
--
-- QuickSort: C++11/Cpp-Concurrency-in-Action/chap4/4_12.cpp, `sequential_quick_sort`, and 4_13.cpp beside
-- it, `parallel_quick_sort` as steps of its calls in any order (QuickSort.Parallel), for any element
-- type, order and partition. Fuel for the length of the list is enough.
--
-- Swap: C++11/Cpp-Concurrency-in-Action/chap3/3_6.cpp, `swap` and `mswap`, with `std::lock` and without, as
-- steps of any number of threads.
--
-- ThreadPool: C++11/Cpp-Concurrency-in-Action/chap9/9_1.cpp, `thread_pool`: the owner, the workers and
-- the queue, whose calls are one step each, as Monitor.Queues allows.
--
-- Timer: timer/timer.h, `Timer`: the calls of one controlling thread and the threads that they detach, as
-- steps on the two flags and the place of each thread.
--
-- Not modelled: the copies of the redis and acl libraries, the programs that only call a library
-- (cameras, RTP, sockets), the unit tests, and the build files.
pub mod Account
pub mod Accumulate
pub mod Aes
pub mod Barrier
pub mod Base
pub mod CipherPadding
pub mod Epoll
pub mod Gzip
pub mod Hierarchy
pub mod IntervalTimer
pub mod Jpeg
pub mod Monitor
pub mod MyString
pub mod Nice
pub mod Primes
pub mod Queue
pub mod QuickSort
pub mod Swap
pub mod ThreadPool
pub mod Timer
