-- ===== src/Tests.antt =====
-- Runs on concrete inputs, and each property of the library applied to one.
mod Tables
mod Probes
mod SetOps
mod MapOps
mod Growing
mod Tokens
mod Pools
mod Machines
mod Mounts
mod Releases
mod Folders
mod Documents
mod Imports
mod Types
mod Expressions
mod Walks
mod Words
