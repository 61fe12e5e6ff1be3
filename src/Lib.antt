-- ===== src/Lib.antt =====
-- hyperd runs pods of containers, each pod in a virtual machine, its sandbox. This library models
-- the part of the daemon that keeps the state of the pods (daemon/pod, types, networking/portmapping)
-- and proves what keeps that state right.
--
-- The parts. The daemon registers every pod and its containers in a registry of ids and names
-- (daemon/pod/podlist.go); a pod has a status that its methods change under a lock
-- (daemon/pod/provision.go, decommission.go), containers with a status of their own (container.go),
-- volumes that containers wait for (volume.go), port mappings (portmappings.go) and IPVS services
-- (servicediscovery.go). Port mappings come from the spec as texts (types/utils.go), and are set up
-- as iptables rules on the host and in the sandbox, with a table of the host ports in use
-- (networking/portmapping). The daemon keeps its pods in a database (daemon/pod/persist.go,
-- daemon/daemondb), where the records of the volumes on the device mapper stand too
-- (daemon/storage.go), and moves what an older daemon has left there (daemon/pod/migration.go).
--
-- The files. Each file's comment says which code it is about; a function bears the Go name in
-- snake case.
--   Prelude: Boolean tests, Go maps as association lists, texts, decimal numerals.
--   Registry: PodList, reserveNames and releaseNames. A pod is an address of a heap, as Release
--   reads the containers that the object holds at that time. Registry/Rename: Container.rename.
--   Container: ContainerStatus, a function from status to status per method, and GetExitCode.
--   Volume: Volume and utils.WaitGroupWithFail. Each critical section is a function, and
--   Volume/Notify runs any sequence of them.
--   Lifecycle: the status of an XPod; its critical sections run in any sequence, and an operation
--   that has two of them takes what happens between them as an argument.
--   Lifecycle/Waiters: the goroutines that sleep on initCond until setPodInitStatus wakes them.
--   PortSpec: reading, printing, comparing and merging port mappings of a spec.
--   PortMapping: the table of host ports, the arguments of the rules, and in PortMapping/Setup the
--   loops that set them up and release them; PortMapping/Used: PortMapUsed, on what iptables prints.
--   PodPorts: adding and removing the port mappings of a pod, on top of PortSpec and PortMapping.
--   Persist: the keys and messages of a pod in the database, saving and loading it, and what
--   RemoveContainer does to them.
--   Services: the services of a pod and the commands that they are sent to the sandbox as.
--   PodSpec: the checks on the spec of a pod (types/validate.go) and ReorganizeContainers. Names: DNS
--   labels, image names and permissions (utils).
--   Creation: Container.init. Spec has the records, Describe describeContainer, Volumes what init does
--   to volumes and files, Init the composition.
--   Interfaces: the ids and the addresses of a pod's interfaces (networks.go, provision.go).
--   Buffer: daemon/buffer and daemon/pod/buffer.go, run by any sequence of its critical sections.
--   Futures: utils.FutureSet, and the operation by which stopContainers stops a container.
--   Placement: addToSandbox, start, waitFinish and associateToSandbox, on Container and Volume; what
--   other goroutines do to the volumes while addToSandbox waits is an argument.
--   Listing: the lists of pods, sandboxes and containers (daemon/list.go).
--   Store: the daemon's database (daemon/daemondb), and Migration: the data of an older daemon written
--   anew in it (daemon/pod/migration.go).
--   Disk: the volumes on the device mapper (daemon/storage.go), whose records stand in Store.
--   Provision: CreateXPod and ContainerCreate on top of Registry (provision.go, daemon/run.go).
--   Exec: the execs of a pod and their exit codes (exec.go), run by any sequence of events.
--   Env: engine/env.go, a list of keys with values.
--   Escape: copyEscapable, the copy of a terminal's input that detach keys end.
--   Tests: the theorems on concrete data.
--
-- Parameters. iptables (PortMapping.Setup.Iptables), ipvsadm in the sandbox (Services.Ipvs), the
-- database's answer to a write (an argument of save_pod), the container engine (an argument of
-- rename, and with the storage driver and the host a record Creation.Init.Answers), net.ParseIP
-- (is_ip), the destination of the terminal copy (write), random strings (rand), the answers of the
-- network package to allocations (a list), leveldb's answers to a deletion and a write
-- (Store.Disk), the decoding of JSON and the engine during a migration (Migration.Outside), the sum
-- that names a device (hex_sum), the answers of the device mapper and the numbers drawn (a list of
-- rounds), the steps of a pod's creation on its resources (Provision.Answers), and the answers of
-- the sandbox and of mounts (arguments of the operations).
--
-- Loops are recursions on the list or on the number of rounds, so there is no bound on their
-- length; the loop by which CreateVolume draws numbers goes on as long as the list of its rounds does.
-- Four recursions have fuel: the decimal numeral of a number has the number; the terminal
-- copy one round more than there are reads, as each round takes a read and the end of file ends it;
-- the search for a new identifier of a FutureSet one round more than there are identifiers, and the
-- search for the id of an interface one more than there are ids, as each round passes one.
-- Ports are native numbers, and strconv.ParseUint's limit of sixteen bits is part of the reading;
-- an exit code is an integer whose low eight bits are reported.
--
-- Not modelled: logging, locks (a critical section is one step), the protobuf encoding, streams and
-- the processes of execs, the mounts and the hosts file, the HTTP and gRPC servers, the clients, and
-- the adapters to docker and to the storage drivers, but for the volumes of the device mapper.
pub mod Prelude
pub mod Container
pub mod Registry
pub mod Volume
pub mod PortSpec
pub mod PortMapping
pub mod PodPorts
pub mod Services
pub mod Lifecycle
pub mod Persist
pub mod Env
pub mod Escape
pub mod Futures
pub mod Listing
pub mod Names
pub mod Placement
pub mod PodSpec
pub mod Buffer
pub mod Creation
pub mod Interfaces
pub mod Store
pub mod Disk
pub mod Migration
pub mod Provision
pub mod Exec
pub mod Tests
