-- ===== src/Tests.antt =====
-- The engine on a small market: two asks and a bid of three orders, then one more client.
pub mod Market
pub mod Sorting
mod Books
mod Engine
mod Queues
mod Sources
mod Threads
mod Main
mod System
mod Older
mod Links
mod Replies
