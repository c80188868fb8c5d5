-- ===== src/Tests.antt =====
-- Concrete surroundings for the program, and its theorems at concrete inputs.
mod Documents
mod World
mod Chat
mod Stores
mod Pages
mod Files
mod Uploads
mod Servers
mod Requests
mod Delivery
mod Program
mod Fleet
mod Names
