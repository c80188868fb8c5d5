-- ===== src/Websocket.antt =====
-- The package internal/websocket: clients, the manager that joins them, and the servers of a cluster.
pub mod Channels
pub mod Client
pub mod History
pub mod Manager
pub mod Registry
pub mod Fleet
pub mod Talk
pub mod Authors
