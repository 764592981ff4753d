-- ===== src/Files.antt =====
-- src/routes/files.rs: the rows of `files` with the objects and the bytes that they share, and the
-- handlers over them. A statement of the database fails only where a constraint of src/db.rs refuses
-- it; what deleting bytes answers is a parameter, `erase`.
pub mod Rows
pub mod References
pub mod Releasing
pub mod Removal
pub mod Access
pub mod Raw
pub mod Keys
pub mod Burning
pub mod Admission
pub mod Serving
pub mod Fixtures
mod Examples
