-- ===== src/Models.antt =====
-- src/iceberg/models.py: the enums, and the tables as records. A row stands in the model as it is
-- read from the database, so its primary key is a number; a relationship through a link table is
-- the list of ids that it links, and a time is a UTC instant counted in whole units.
mod Enums
mod Values
mod Tables
pub mod Rank
pub use Enums.*
pub use Values.*
pub use Tables.*
