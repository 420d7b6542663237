-- ===== src/Server.antt =====
-- The HTTP server of src/http_server: the queue of its workers, and its reads and writes on a socket.
pub mod LinkedList
pub mod Handles
pub mod Config
pub mod Configuration
pub mod Handler
pub mod Response
pub mod Socket
pub mod WaitList
