-- ===== src/Drivers.antt =====
-- storage/drivers: stores of configs in Kubernetes objects and of values in etcd.
pub mod Crds
pub mod Etcd
