-- ===== src/Routing.antt =====
-- internal/routing: what the builder reads of the routing table.
pub mod Bogon
pub mod Table
