-- ===== src/Mock.antt =====
-- mockgo/mock: the mock endpoints, the tree in which they are looked up, and the handler that serves
-- them.
pub mod Model
pub mod Tree
pub mod Register
pub mod Search
pub mod Select
pub mod Render
pub mod Load
pub mod Metrics
pub mod Routes
pub mod Served
pub mod Samples
mod Tests
