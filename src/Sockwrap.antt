-- ===== src/Sockwrap.antt =====
-- sockwrap.c: the socket functions that every program is linked with. The copies of the file in the
-- folders of the repository are identical.
mod Runs
pub mod Wrap
pub mod Exact
pub mod Lines
pub mod Setup
pub mod Datagrams
pub mod Names
pub mod Others
pub mod Listing
