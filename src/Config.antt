-- ===== src/Config.antt =====
-- PL/Config.cpp: the configuration file that a node starts from, its parser and its lookup.
-- A `char` of the source is signed on the machines that it is built for, so the bytes from 128 on
-- compare below the space. C strings are lists without their NUL, where the NUL is not read past.
pub mod Token
pub mod Var
pub mod File
