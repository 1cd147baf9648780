-- ===== src/Netctl.antt =====
-- netctl/src/netctl: the hands of the controller on the network.
pub mod Mock
pub mod Gnmi
