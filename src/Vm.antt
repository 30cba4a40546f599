-- ===== src/Vm.antt =====
-- One VM's files, devices and life: ltvm_pkg/vm_commands.py.
pub mod Files
pub mod Devices
pub mod Options
pub mod Create
pub mod InfoFile
pub mod Power
