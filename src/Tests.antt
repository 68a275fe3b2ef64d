-- ===== src/Tests.antt =====
-- The theorems at concrete inputs.
mod Data
mod Texts
mod Threads
mod Requests
mod Shells
mod Managers
mod Rules
mod Machines
mod Services
mod Deployments
mod Finished
mod Failing
