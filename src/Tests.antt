-- ===== src/Tests.antt =====
-- A small kernel state, and the theorems applied to it.
mod CommandLine
mod Demo
mod Disk
mod Memory
mod Run
mod Session
mod Space
mod Strings
mod Turns
