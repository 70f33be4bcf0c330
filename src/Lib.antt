-- ===== src/Lib.antt =====
-- A verification of the C++ network library under mudou/: a reactor with non-blocking TCP
-- connections, timers, and a binary protocol for packets, with the log and the configuration files that
-- go with it.
--
-- The parts and how they interact. An EventLoop waits in a Poller for the descriptors of its
-- Channels, calls the callbacks of the channels that are ready, and runs the timers of its
-- TimerQueue. A TcpConnection owns a channel and two Buffers: it reads from its socket into one,
-- writes directly where it can, and keeps in the other what the kernel did not take; its channel asks
-- for room to write as long as bytes wait. What a connection carries is packets, which
-- BinaryStreamWriter makes and BinaryStreamReader takes apart.
--
-- Other threads leave functors for a loop and wake it. A TcpServer shares its connections out among the
-- loops of an EventLoopThreadPool and keeps them in a map by name. CAsyncLog takes lines from any thread
-- and has one thread that writes them; CConfigFileReader keeps the entries of a file.
--
-- Which file models which part:
--   Net/Endian      mudou/net/Endian.h, hostToNetwork* and networkToHost*.
--   Net/Buffer      mudou/net/Buffer.h and Buffer.cpp. A vector with two indices, its methods by their
--                   names in snake_case; a pointer into the buffer is an index. Integers (append,
--                   peek, read, prepend), Search (findString, findCRLF, findEOL), ReadFd
--                   (readFd) and Shrink belong to it; Invariant, Contents and Queue are about it.
--   Net/Stream      mudou/net/ProtocolStream.cpp: Checksum (checksum), SevenBit
--                   (write7BitEncoded, read7BitEncoded), Reader and Writer (the two classes), Decimal
--                   (sprintf and atoll of the C library, for 64-bit integers), Message (a whole
--                   packet) and Faults.
--   Net/Channel     mudou/net/Channel.cpp. Sets of events are numbers with the bits of poll(2). The
--                   record Polling is what a connection needs of a poller.
--   Net/EpollPoller mudou/net/EpollPoller.cpp: the map of channels and the calls of epoll_ctl.
--                   Interface fills Polling.
--   Net/PollPoller  mudou/net/PollPoller.cpp: the array for poll(2) and the channels in a store. Slots, Consistent
--                   and Removal say what each call leaves, Polls is about poll, Calls puts them in a
--                   row.
--   Net/SelectPoller  mudou/net/SelectPoller.cpp: Listed is about updateChannel, Ready and Answers
--                   about poll.
--   Net/Sockets     mudou/net/Sockets.cpp: the texts of addresses (toIpPort, toIp, fromIpPort, isSelfConnect).
--   Net/InetAddress  mudou/net/InetAddress.cpp: Endpoints is about the texts, Dotted is the dotted decimal of
--                   inet_ntop(3).
--   Net/Acceptor    mudou/net/Acceptor.cpp, with accept of Sockets.cpp: Descriptors is about what is open.
--   Net/EventLoopThread  mudou/net/EventLoopThread.cpp: the steps of the new thread and of the caller.
--   Net/TcpConnection  mudou/net/TcpConnection.cpp, over any Polling. A function returns the
--                   connection and the list of what it does to the socket and to its owner.
--                   Setup begins at the constructor, Drains is about shutdown.
--   Net/Connector   mudou/net/Connector.cpp: the state machine that connects, with the sockets as
--                   effects; a call through its null channel is none.
--   Net/TimerQueue  mudou/net/Timer.cpp, TimerQueue.cpp, and runAt, runAfter and runEvery of
--                   EventLoop.cpp.
--   Net/EventLoopThreadPool  mudou/net/EventLoopThreadPool.cpp: the loops and their turns; a loop is
--                   its address.
--   Net/EventLoop   mudou/net/EventLoop.cpp: loop, quit, runInLoop, queueInLoop, wakeup, handleRead and
--                   doPendingFunctors. Channels has the constructor and the calls of the poller. Steps is the relation of the loop's thread and the others.
--   Net/TcpServer   mudou/net/TcpServer.cpp, over the pool; what the loops get to run is a list of tasks. Whole
--                   goes from the constructor, with the text of an InetAddress, to the stop.
--   Net/TcpClient   mudou/net/TcpClient.cpp, over the connector; a connection is its number.
--                   Quiet goes through the calls, and Lifetime puts them in a row.
--   Base/ConfigFileReader  mudou/base/ConfigFileReader.cpp: Strings, Lines (fgets), Keys (the map), Trim
--                   (trimSpace) and Cuts, Texts (the lines of a map), RoundTrip, Loaded and Bytes.
--   Base/AsyncLog   mudou/base/AsyncLog.cpp: WriteFile (writeToFile), Steps (the writing thread and the
--                   others), Order, Sizes and Rolling (the files), Levels (output) and Dump (outputBinary, with
--                   Bounds of its array, and Rows and ReadBack for what it prints).
--   Base/CountDownLatch  mudou/base/CountDownLatch.cpp: the steps of the threads that wait and count down.
--   Base/Timestamp  mudou/base/Timestamp.h and Timestamp.cpp: comparisons, sums, and toString (Texts).
--   Prelude         lists, tests and integers over the native numbers.
--
-- Bounds. A char is a number below 256; sums and differences of size_t are modulo 2^64 (Prelude/Words),
-- and the shifts of the checksum and of the lengths are modulo 2^32 or 2^64. Buffers are below
-- 2^63 bytes, as vectors are. Times are natural numbers of microseconds. The count of a latch and the
-- result of readFd are not bounded: a latch only counts down from an int, and readv returns less than 2^31. Loops are
-- recursion on a list, on the value that they divide (well-founded), or on the five bytes of a length
-- head. Two loops have fuel: that of writeToFile has one more than the bytes it writes, since each round
-- writes at least one as long as an int can count the text (below 2^31 bytes), and that of outputBinary as many as the bytes it prints, since each round takes
-- at least one.
--
-- Parameters. The kernel's epoll object (Net.EpollPoller.Epoll) with the laws of epoll_ctl(2) as
-- IsEpoll; the answers of readv and write; the bytes that uninitialised arrays hold; the text that
-- sprintf makes of a double; the file behind CConfigFileReader (Disk) and fwrite(3) and fclose(3) (IsDisk,
-- IsFwrite); inet_ntop(3) and inet_pton(3) (Inet, IsInet); the descriptors of the process and the connections
-- that wait (Net.Acceptor.Kernel, IsKernel); select(2) (Net.SelectPoller.Answers.IsSelect); what poll(2) and gethostbyname_r(3) answer. A read outside an allocation is a result of its own, none. Allocation succeeds, and the code runs in the thread of its loop.
--
-- Not modelled: the calls of Sockets.cpp that only pass their arguments to the kernel, the start and the join of
-- threads, and the options of sockets; the texts of clocks and threads.
pub mod Prelude
pub mod Base
pub mod Net
