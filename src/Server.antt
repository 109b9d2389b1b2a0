-- ===== src/Server.antt =====
-- src/server.rs: the notifications between the tasks, and the parts of the server as child modules.
pub mod Switch
pub mod Connection
pub mod Application
pub mod Accept
