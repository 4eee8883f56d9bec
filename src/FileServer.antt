-- ===== src/FileServer.antt =====
-- lab3/es3/server.c: a server that sends files to clients that ask for them by name.
pub mod Defs
pub mod SendFile
pub mod Service
pub mod Main
pub mod Bench
mod Runs
