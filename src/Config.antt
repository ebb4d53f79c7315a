-- ===== src/Config.antt =====
-- The settings of a deployment, read from the process environment: a variable that is not set is
-- `none`.
pub mod Laws
pub mod Security
pub mod Network
pub mod Catalogs
use dataspace_ica_ts.Common.{
  String, Bool, true, false, ◌||◌, Option, none, some, ◌==◌, if◌then◌else◌,
}
use dataspace_ica_ts.Text.{trim, to_lower}
