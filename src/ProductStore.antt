-- ===== src/ProductStore.antt =====
-- ProductStore of product_store.py. A table is the rows that it holds; a transaction that raises is
-- rolled back, so it leaves no new state.
pub mod Bindings
pub mod Journal
pub mod Resources
pub mod Receipts
pub mod Closing
