-- ===== src/Examples.antt =====
-- Runs of the model at fixed inputs: the theorems applied to concrete tables, buffers, gates, lists,
-- trees, rows and clients, to a watchdog, a server and a log line.
mod Table
mod Buffer
mod Socket
mod Nodes
mod Whole
mod Trees
mod Rows
mod Session
mod Dog
mod Epoll
mod Lines
