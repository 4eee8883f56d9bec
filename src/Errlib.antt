-- ===== src/Errlib.antt =====
-- errlib.c: the functions that report an error. In the models of the programs they are the status
-- with which they end the process; Message and Output are what they print.
pub mod Message
pub mod Output
mod Runs
use dp.Os.Io.{Io, quit}

-- `err_sys`, fatal and related to a system call
abbrev pub err_sys : {W A : Type 0} → Io W A
err_sys = quit 1

-- `err_quit`, fatal and unrelated to a system call
abbrev pub err_quit : {W A : Type 0} → Io W A
err_quit = quit 1
