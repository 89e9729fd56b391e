-- ===== src/Cluster.antt =====
-- What the operator asks of the Kubernetes API: the fields of foreign objects that it reads or
-- writes, and the client's operations as a parameter over an unknown world.
pub mod Objects
pub mod Exec
pub mod Env
pub mod Laws
pub mod Retry
