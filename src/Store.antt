-- ===== src/Store.antt =====
-- internal/store/store.go: the records that the store keeps, and its filters. The operations of the
-- in-memory implementation, internal/store/memstore/memstore.go, stand in the children.
pub mod Events
pub mod Rules
mod Tests
