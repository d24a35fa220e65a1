-- ===== src/Db.antt =====
-- crates/deltaship-db: the tables of the publisher and of the client, with what is stored in them.
pub mod Table
pub mod Models
pub mod Publisher
pub mod Client

-- The errors of `DbError` that the operations return. `unique_violation` and `foreign_key_violation`
-- are the two kinds of `ConstraintViolation` that can occur.
pub data DbError : Type 0 where
  not_found invalid_data unique_violation foreign_key_violation io : DbError
