-- ===== src/Seed.antt =====
-- The seed: db/seed_db.py, db/auto_seed.py, api/routes/admin/seed.py and seed/.
pub mod Apply
pub mod Collect
pub mod Columns
pub mod Definition
pub mod Files
pub mod Items
pub mod Kinds
pub mod Table
pub mod Validate
mod Samples
mod Tests
