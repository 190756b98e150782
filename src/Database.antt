-- ===== src/Database.antt =====
-- The database as the services use it through drizzle: a table is a list of rows, and the statements
-- of the source are read with their meaning in SQL (`where` is a test of a row, `set` a change of
-- one). Transactions are the library's, a parameter with its documented behaviour.
pub mod Tables
pub mod Transactions
