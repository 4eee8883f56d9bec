-- ===== src/Os.antt =====
-- The operating system that the programs run on, which is not part of the repository: its calls are
-- the fields of a record, and what is documented of them are named laws over an abstract view.
pub mod Io
pub mod Calls
pub mod Errno
pub mod Net
pub mod Reliable
pub mod Loopback
pub mod Processes
