-- ===== src/Store.antt =====
-- The database that the ledger works on: the tables of internal/db/migrations/00001_schema.sql
-- and the queries of internal/store, which sqlc generates from internal/store/queries.
pub mod Rows
pub mod Action
pub mod Queries
pub mod Insert
pub mod Sums
pub mod Balance
