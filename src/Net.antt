-- ===== src/Net.antt =====
-- mudou/net: the buffer, the wire format, the timers, the pollers and the connections.
pub mod Endian
pub mod EventLoop
pub mod Buffer
pub mod Stream
pub mod Sockets
pub mod InetAddress
pub mod Channel
pub mod EpollPoller
pub mod PollPoller
pub mod SelectPoller
pub mod TimerQueue
pub mod TcpConnection
pub mod Connector
pub mod EventLoopThread
pub mod EventLoopThreadPool
pub mod Acceptor
pub mod TcpServer
pub mod TcpClient
