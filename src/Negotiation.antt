-- ===== src/Negotiation.antt =====
-- What a client asks for in `CONNECT` and what the server settles on.
pub mod Algorithms
pub mod Connect
pub mod Settle
pub mod Typed
pub mod Laws
mod Tests
