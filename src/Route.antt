-- ===== src/Route.antt =====
-- route/: path-vector routing. Path is path.go, Table is table.go, Propagation is propagation.go.
pub mod Path
pub mod Table
pub mod Propagation
mod Examples
