-- ===== src/FileClient.antt =====
-- lab3/es2/client.c, a client that is typed commands and fetches files from the server, and
-- lab2/lab2.3/source/client1, one that is given the names of the files when it is started.
mod Runs
pub mod Receive
pub mod Commands
pub mod Session
pub mod Batch
pub mod Mains
