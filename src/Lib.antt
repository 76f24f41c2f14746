-- ===== src/Lib.antt =====
-- cube-cos-driver: the description of a cluster and the files made from it, the deploy engine of the
-- driver, its inventory of machines, and the installation of enterprise modules on a running cluster.
--
-- The driver installs a cluster of bare-metal nodes. Its deploy engine, internal/orchestrator, keeps
-- one record of a deploy per cluster and one of each node in it, drives the nodes by IPMI until the
-- agent on a node reports, lets the fleet pass its barriers (preflight, restore, reboot, apply on the
-- master, apply on the peers, set-ready), and talks to the agents by HTTP and by records in the system
-- event log (SEL) of each node's BMC. An operator may hold a manual deploy at every step. The
-- inventory, internal/inventory, keeps the machines, their BMC logins and which cluster node each one
-- is; a deploy's nodes are made from it. On a cluster that runs, internal/enterprise installs the app
-- framework and the modules on it: it makes a plan of steps, checks it against the support matrix of the
-- cluster's release, and runs the steps over ssh, by itself or one at a time at an operator's call.
-- A cluster is described by the operator: internal/model checks the description, internal/generator makes
-- each node's policy files, its preflight plan and its archive from it, and internal/storage keeps them on
-- the disk. Before its nodes boot, internal/pxe arms the boot menu that the drivers share.
--
-- Files and the code they are about:
--   Base                    what the modules share: tests on numbers and text, lists, Go maps,
--                           integers
--   Orchestrator/State      internal/orchestrator/model.go: State, terminal, pipelineRank; sel.go:
--                           stateRank
--   Orchestrator/Record     model.go: Node, NodePreflight, NodeDeploy, Deploy; manager.go:
--                           SetReadyInput
--   Orchestrator/Code, Step, Gate
--                           errcodes.go, and the constants of the steps and of the gate stages
--   Orchestrator/View       model.go: lights, phase, progress; manager.go: deriveNodeFields
--   Orchestrator/Sel        sel.go: decodeCubeSEL, selState, Observe, Anchor, encodeEndpoint,
--                           decodeEndpoint
--   Orchestrator/Gates      sel.go: gatesPresent, WriteGate, ClearSEL, WriteEndpoint
--   Orchestrator/Nodes      manager.go and sel.go: what each report does to one node's record
--   Orchestrator/Manager    manager.go: Manager, set, state, persistLocked; store.go: Store
--   Orchestrator/Ledger     manager.go: the gates that a node was granted and their writes
--   Orchestrator/Steps      manager.go: AdvanceStep, GreenLight1, CheckIn, RekickPreflight and the
--                           questions an agent asks
--   Orchestrator/Ready      manager.go: SubmitSetReady, GetSetReady, MarkReady, maybeAutoSetReady
--   Orchestrator/Reports    manager.go: the agent's reports; sel.go: MergeSEL
--   Orchestrator/Launch     manager.go: Start, Cancel, Status
--   Orchestrator/Drive      manager.go: runNode and pollSEL
--   Orchestrator/Inspects   manager.go: StartInspect and the calls on inspect boots
--   Orchestrator/Events     one event per call that changes the manager, and runs of events
--   Orchestrator/Policy     which gates a manual deploy may have granted, stated apart from the code
--   Inventory/Facts         internal/inventory/model.go: Inventory; store.go: mergeInventory
--   Inventory/Machines      model.go: record, Machine, toMachine, AssignmentFor
--   Inventory/Store         store.go: the calls of Store but List
--   Inventory/Assigned      which machine is at which node, before and after a call
--   Clusters                internal/model/model.go: ClusterDetail and what it is made of
--   Clusters/Networks       model.go: validateMgmtCIDR
--   Clusters/Validate       model.go: Validate
--   Enterprise/Text         internal/enterprise/plan.go: shellQuote; the text functions of Go's library
--   Enterprise/Records      model.go, and the records of manifest.go
--   Enterprise/Scripts      plan.go and manager.go: the shell texts
--   Enterprise/Plan         plan.go: BuildPlan, BuildUninstallPlan
--   Enterprise/Manifests    manifest.go, matrixversion.go, gate.go: MatchManifest, CheckModule
--   Enterprise/Cluster      clusterssh/client.go: Client; manager.go: the probes, scpRun (Cluster/Copy),
--                           what is told of a framework (Cluster/Progress), runFramework
--                           (Cluster/Framework)
--   Enterprise/Addresses    manager.go: parseOwnLBAddrs, suggestAddrs, checkAdvisorAddrs
--   Enterprise/Preflight    manager.go: enforceMatrix, preflight, and the work of a step by its kind
--   Enterprise/Introspect   manager.go: Introspect
--   Enterprise/Manager      manager.go and store.go: Manager, rehydrate, terminate, cleanup, the cascade;
--                           execStep (Manager/Steps), launch, Next, Cancel, Status (Manager/Calls),
--                           runAll (Manager/Runner), the parts of the calls in any order
--                           (Manager/Events)
--   Pxe                     internal/pxe/pxe.go: the boot menu and its lock (Pxe/Locking);
--                           flipper.go: Flip and its restore (Pxe/Flipper)
--   Generator               internal/generator/validate.go and preflight.go: netmasks, the check of a
--                           node's network, its links and peers; render.go and yamlwriter.go: the policy
--                           files; snapshot.go: the archives
--   Clusters/Bundles        internal/model/preflight_bundle.go
--   Storage                 internal/storage/store.go: Save, Detail, Delete
--   Orchestrator/Tests, Inventory/Tests, Enterprise/Tests, Pxe/Tests, Generator/Tests, Storage/Tests
--                           the theorems at concrete inputs
--
-- How the code is modelled. A call of the manager holds its lock while it reads and changes the state,
-- so it is one step: a function on the record Manager, whose fields are those of the Go struct. A Go
-- map is an association list, a missing key is `none`, a text that an agent may choose freely is the
-- constructor `other` of State. Background goroutines are the list `tasks`; what they bring back (the
-- outcome of a gate write, a status read from a BMC, the pings of a verification) comes as an event at
-- any later time, in any order, so that a theorem about runs covers every interleaving of whole calls.
-- Start is one event for each of its holds of the lock (the records, the anchor of a node, the gates, the
-- end of a run that the boot server refused) and for the wipes and the background work beside them, and any
-- event may come between two of them. The clock is a number that events set. Files are maps, and a store that refuses writes is covered.
--
-- A BMC is the record Bmc: a type of sessions and one function for each call of the IPMI library, each
-- of which may fail at any time. What a theorem needs of a BMC is a record of laws: Reads (a read that
-- succeeds returns the log and leaves it alone), Healthy (every call is answered and a record is put
-- at the end of the log), NeverFull (no add reports a full log). WriteGate makes five passes at most;
-- the recursion is on the passes that are left, so no fuel is added. Go's conversion of bytes to text
-- is the parameter `text`.
--
-- The machines' store is a map from ids to files. A file may be unreadable, and a write to a file may
-- be refused, so that a loop over files may end half way. The secret box, the test for a blank text
-- and the random id of a new machine are parameters; IsBox says that the box opens what it sealed and
-- seals nothing to an empty text.
--
-- An installation's record is shared by pointer between the manager, its runner and a call of Next, so
-- the installs live in a heap, and the manager's maps and a run hold addresses. A call that gives up
-- its lock is several functions, one for each stretch under the lock; Events lets any of them follow
-- any other. What a step does on the cluster is an Action over the record Client: the lines it prints,
-- its result or error, and the cluster it leaves. A command, an upload and a wait may each fail at any
-- time. The lines of a step are put on its record when its work is over, while the program puts them
-- there one by one. The disk may refuse to remove a file of the store, which the cascade passes over. The
-- loops of runFramework run on fuel: 121 rounds for a framework, which has an
-- hour and a wait of 30 seconds between two looks, and 21 for its registry, which has five minutes and
-- a wait of 15; the record Clock says that time does not run backwards and that a wait lasts. The
-- lines that the program prints from the side while framework_create runs are left out. Text functions
-- of Go's library, the regular expressions, the driver's own disk, the check of an advisor's signature
-- and the manifests that are read from files are parameters; an error of the disk is told without its
-- own text.
--
-- The loops of runNode and pollSEL give up the lock between their parts. What other calls have done by
-- then is a function on the manager, of which nothing is assumed but, where a loop must end, that the
-- clock goes forward by a tick; the fuel of runNode's loop is a number of ticks that reaches beyond
-- the stage's timeout. In a round of the poll, others may work before each of its readings.
--
-- Before a node boots over the network, the driver arms an entry of the boot menu that all drivers
-- share. The folder of the menu is a record: the text of grub.cfg, the lock, the faults of the writes to
-- come, and which locks cannot be removed. A flip and its restore are modelled as they run while no other
-- driver is at the folder; what drivers do to each other between the parts of a flip is not modelled, and
-- the lock does not exclude it when it is stale. What the four regular expressions
-- find in a text, and what they replace, is the record Patterns. The files that a node is restored
-- from are lists of lines; the preflight plan is a map from host names to links and peers. What Go's
-- net package reads from a text is the record Net, and the length of a netmask is computed from its
-- four bytes. For the overlap of networks an address is its 32 bits. The store of clusters is a record
-- of maps, and a list of faults says which of the operations to come fail. A folder has the JSON text of its
-- description; what is read from a text is a parameter. A host's name is a part of the paths of its
-- snapshots: which names stay inside a folder is a parameter, and so is what another name reaches.
--
-- Not modelled: of internal/enterprise, List, StepDurations, the reading of manifest files, archives
-- and signatures; the fake executor, IPMI power and boot calls, the lease observer and the ping
-- verifier (input and output); the watcher of flipForBoot and stampEndpoint; the JSON form of the
-- files; ReleaseNode is modelled and is left out of the events, since it is the operator's override of
-- the step cursor; the inventory's List and its importer. Of internal/storage, List and the paths of
-- files are left out. The other packages (internal/api, internal/agent, internal/discovery,
-- internal/secret, the ssh transport of internal/clusterssh, cmd) and web are not modelled.
pub mod Base
pub mod Clusters
pub mod Enterprise
pub mod Generator
pub mod Inventory
pub mod Orchestrator
pub mod Pxe
pub mod Storage
