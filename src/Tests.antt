-- ===== src/Tests.antt =====
-- The theorems at work on small states of the scheduler, with the list in the place of the C queue.
mod Fixtures
mod Queues
mod Choices
mod Steals
mod Turns
mod Locks
mod Server
mod Memory
mod Requests
mod Started
mod Compressed
mod Files
mod Store
