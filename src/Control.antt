-- ===== src/Control.antt =====
-- internal/controlplane: the runtimes that the control plane drives.
pub mod Stream
pub mod Handle
pub mod History
pub mod Tracking
pub mod Lease
pub mod Reconcile
pub mod Runtime
