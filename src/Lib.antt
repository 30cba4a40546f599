-- ===== src/Lib.antt =====
-- ltvm builds artifacts for Lustre tests and runs QEMU microVMs with them. This library models the
-- parts of it that decide: who may use a VM, where artifacts lie and how they move, which addresses a VM
-- gets, whether the host has memory for it, which process is its QEMU, how VMs and clusters of
-- them are made, started, failed over and destroyed, which images they use, and what a suite run says.
--
-- Base.antt, Base/: names of the libraries passed on; `==`, `in`, if-then-else and tests on the native
--   numbers; lists. Result.antt: exceptions, and calls that change a state.
--
-- Owner.antt: ltvm_pkg/vm_owner.py, and the functions of ltvm_pkg/vm_claim.py that ask the process and the
--   environment (`current_owner`, `_pid_alive`). The record Host is what one call sees of them.
-- Claim.antt, Claim/: ltvm_pkg/vm_claim.py. The state is the directory VM_DIR/claims: a Store says what
--   stands at each VM's name. `claim`, `release`, `forget`, `auto_claim` change it; `load`, `holder`,
--   `check`, `require`, `require_all`, `all_claims` read it. A call runs under the flock of its file, so calls
--   are atomic, and an interleaving is a sequence of calls. Commands go through `require_all` and
--   `auto_claim` before they touch a VM.
--
-- Storage/Tree.antt: `_copy_tree` and `_verify_copy` of ltvm_pkg/storage.py, on trees of files with a stat
--   and contents. Copies are made of files, links and directories; a file's contents travel with it.
-- Storage/Relocate.antt, Storage/Relocate/: `relocate`. The state is what stands at six names; each system
--   call that can fail has a field of Faults, and what the disk holds after a copy is `landed` of what was
--   written. Storage/Move.antt, Storage/Move/: `_plan`, `_match_refs`, `_refusal` and `move_target`, which
--   runs a relocation for each arch under one lock.
--
-- Net/Pool.antt: `_default_address` of ltvm_pkg/nic_allocation.py and `select_address` of
--   ltvm_pkg/nic_network.py. Net/Overlap.antt: `overlap_problem` and `network_problem` of the latter.
--   Net/Alloc.antt: `alloc_vm_addresses` with `_stored_address_state`, `_validate_explicit_ip` of
--   ltvm_pkg/vm_net.py, and `subnet_for_nic` and `nic_ip6` of ltvm_pkg/vm_state.py. Net/AllocIp.antt:
--   `alloc_ip` and `_used_ips_by_net` of ltvm_pkg/vm_net.py. Addresses are numbers,
--   as ipaddress reads them; the number that hashlib makes of a VM's name is a parameter. Net/Names.antt:
--   `register_ssh_name` and `unregister_ssh_name`, on lines as the code's tests tell them apart.
--
-- Memory/Budget.antt: `memory_budget`, `_memory_shortfall` and the loop of `launch_qemu` of
--   ltvm_pkg/qemu_run.py. A wait is the sequence of what its looks find, so its length bounds the loop and
--   no fuel is needed. The product with the float `overcommit` is a parameter, about which nothing is
--   assumed. Memory/Numa.antt: `numa_problem` and `smp_args`.
--
-- Qemu.antt: `is_running`, `_qemu_pid_is` and `_cmdline_names_vm` of ltvm_pkg/qemu_run.py, over what the host
--   shows at one moment. Qemu/Kill.antt: `kill_qemu`, whose looks and signals come at one moment after
--   another; its two waits have 50 and 20 looks, as in the source. The commands that remove the TAP devices
--   are left out.
--
-- Suite/Status.antt: `classify` of ltvm_pkg/suite_run.py. Suite/Results.antt: `parse_results`, `summarize`
--   and `failed`. The subtests are shared objects in the source; here `cur` and `waiting` hold their places
--   in the suite. A line is what the three regular expressions make of it.
--
-- Failover.antt: the facets of a node, `_Pair`, `moved_facets` and `require_no_moved_facets` of
--   ltvm_pkg/cluster_failover.py. Failover/Commands.antt: `cmd_cluster_failover` and `cmd_cluster_failback`,
--   with `_fault`, `_resume` and `_unfault`. What a command does on the nodes is an event of a log, and what
--   the nodes answer is a field of Env.
--
-- Cluster/Nodes.antt: `ClusterNode` and the accessors of `ClusterInfo` (ltvm_pkg/vm_state.py),
--   `parse_node_spec` and `failover_partners` (ltvm_pkg/vm_cluster.py), and `_validate_vm_name`
--   (ltvm_pkg/vm_commands.py). Cluster/Osts.antt: `plan_ost_files` and `ost_file_kb`. Cluster/LocalSh.antt:
--   the lines of `generate_local_sh` that say where each target lies, and the disks that `_create_one_node`
--   asks for. Cluster/Vms.antt: the VM files and cluster records of a host, `cmd_destroy` and
--   `cmd_cluster_destroy`. Cluster/Create.antt: `cmd_cluster_create` with `_require_cluster_memory`, the two
--   waves of nodes, the rollback and the record; how each `ltvm create` ends is a parameter, as are the loads
--   of the new `.info` files and the write of the record.
--   Cluster/Status.antt: `parse_targets`, `recovery_done` and `wait_recovery` of
--   ltvm_pkg/cluster_lustre_state.py; the wait has two turns more than its timeout has units of time, and each
--   turn but the last takes one unit at least.
--
-- Vm/Files.antt: the files of VMs, `_create_disks` and `_destroy_vm_artifacts` of ltvm_pkg/vm_commands.py; a
--   host's files are an association list, and which files can be unlinked, removed as root or made is a
--   field of Host. Vm/Devices.antt: `bind_to_vfio` of ltvm_pkg/vfio.py and the loops that bind devices and
--   give them back; the state is the driver of each device. Vm/Options.antt: the checks of `ltvm create`.
--   Vm/Create.antt, Vm/Create/: `cmd_create` with the steps from the checks to the launch and the rollback,
--   on a World of files, drivers, registered names and running VMs; how each outer call ends is a field of
--   Meets. Vm/InfoFile.antt, Vm/InfoFile/: the text of a `.info` file, as `save` and `load` of VMInfo in
--   ltvm_pkg/vm_state.py have it, by a table of its fields. Vm/Power.antt: `cmd_start` and `cmd_stop`.
--   These Worlds are not those of Cluster/Vms.antt, where a VM is its name and the VM whose disks it uses,
--   with the names of the data disks beside.
--
-- Images.antt, Images/: ltvm_pkg/image_store.py. The state is the listing of one image directory; paths are
--   entries of it or lie outside. What can be read of an overlay is its bytes.
--
-- Targets/Kernels.antt, Targets/Kernels/: the names of kernels in ltvm_pkg/target_config.py, with the natural
--   order of versions, `resolve_kernel_dir`, `_short_kernel_name` and `resolve_kernel`.
--
-- Tests.antt, Tests/: runs of the definitions, and each result at a concrete input.
--
-- All loops are structural recursion. Sizes, times, PIDs and addresses are natural numbers; a difference
-- that may be negative is written out where it arises (the age of a run, a budget below the reserve). The
-- digits of a number are made on fuel, one more than the number, which has fewer digits; that they are read
-- back as the number shows that the fuel is enough.
--
-- Not modelled: the texts of messages; the commands that run podman, qemu-img, ssh, rsync and ip; builds,
-- releases, host set-up but for the binding of devices, telemetry and the command line. Of
-- ltvm_pkg/storage.py the site file, `survey` and the sharing of modes by umask are left out; what `survey`
-- finds is a field of World. Of clusters, deployment, mounting and the commands on all nodes are left out. Of
-- creating VMs, the TAP devices themselves, the lookup of artifacts and the parsing of NIC specs are left
-- out, and two creations at one time. Of target configuration, the YAML file, the variants but for their
-- pins, and the hashes are left out; of images, building and exporting them.
pub mod Base
pub mod Claim
pub mod Cluster
pub mod Failover
pub mod Images
pub mod Memory
pub mod Net
pub mod Owner
pub mod Qemu
pub mod Result
pub mod Storage
pub mod Suite
pub mod Targets
pub mod Tests
pub mod Vm
