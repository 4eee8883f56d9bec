-- ===== src/Square.antt =====
-- lab2/es4/xdr: servers that square 64-bit integers, and their clients, in five versions.
mod Runs
mod Talks
mod Pools
mod Streams
pub mod Post
pub mod Xdr
pub mod Udp
pub mod Simple
pub mod Sequences
pub mod Client
pub mod Tcp
pub mod Mains
pub mod Rfc
