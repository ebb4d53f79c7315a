-- ===== src/Routes.antt =====
-- src/api/path.ts: the parsers of the request paths, one for each kind of route. A parser returns
-- `none` where its expression does not match, and a context or a status with a message where it does.
pub mod Pattern
pub mod Expressions
pub mod Contexts
pub mod Scope
pub mod Resource
pub mod Documents
pub mod Entity
pub mod Network
pub mod Credentials
pub mod Access
pub mod Dcat
pub mod Laws
pub mod Tests
