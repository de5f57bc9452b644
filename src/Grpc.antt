-- ===== src/Grpc.antt =====
-- mockgo-grpc: the stores of a cluster of servers, which call each other over gRPC.
pub mod Attempt
pub mod Connect
pub mod Serving
pub mod Messages
pub mod Kvstore
pub mod Merge
pub mod Matchstore
mod Tests
