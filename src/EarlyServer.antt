-- ===== src/EarlyServer.antt =====
-- lab2/lab2.3/source: the servers before the one of lab3/es3, server1_main.c with one client at a
-- time and server2_main.c with a process for each client. Their `send_file`, `error_msg` and
-- `fatal_error` are those of lab3/es3/server.c.
pub mod Requests
pub mod Mains
pub mod Rounds
pub mod Faults
pub mod First
mod Runs
