-- ===== src/Tests.antt =====
-- The theorems at concrete inputs. `Tests.Kernels` has the data.
pub mod Kernels
mod Queues
pub mod Devices
mod Systems
mod Scheduling
mod Services
mod Programs
