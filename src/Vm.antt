-- ===== src/Vm.antt =====
-- src/Vm: templates and instances, the controller of a node, and the proxy that talks to it.
pub mod Template
pub mod InstanceInfo
pub mod Instance
pub mod Controller
pub mod Proxy
