-- ===== src/Lib.antt =====
-- Verification of kubesim, a simulator that runs a real Kubernetes scheduler against a fake
-- clientset, to say where the pods of an app would go, and how many nodes a set of apps needs.
--
-- The program's parts. A request is parsed (pkg/utils) and submitted as a job to a FIFO queue
-- (pkg/queue). The job loop (`Run`) takes jobs one at a time and runs the emulator that the job
-- names (pkg/scheduler/simulator.go). An emulator emulates its apps one after the other: it creates
-- a pod in the fake cluster and waits on a channel; the scheduler calls back to bind the pod, on which
-- the next pod is created, or reports the pod as unschedulable, which stops the run. The state that
-- is left is turned into a report (pkg/scheduler/report.go) and kept for the job. The prediction
-- emulator puts fake nodes (pkg/node) into the cluster and searches for the number that is needed.
--
-- Files and code.
--   Prelude: tests, lists, machine integers, maps, texts; Exec is a method that changes an object
--     and may return an error, panic or block.
--   Queue: `FIFOQueue` of pkg/queue/fifo.go, by operation; Queue/Pending is the abstract queue of the
--     jobs that wait, Queue/Order the order of jobs and the sequences of operations, Queue/Interface
--     the interface of pkg/queue/queue.go.
--   Platform: the API types and the clientset, which are parameters: a `Platform` has a type of
--     clusters and, for pods and nodes, list, get, create, update and delete.
--   Report: pkg/scheduler/report.go, `GetReport` and what it calls; `Status` of simulator.go.
--     Report/Counting and Report/Distribution: how the placed pods are counted; Report/Printing: the
--     printers.
--   Utils: the requests and parsers of pkg/utils/utils.go. Decoding JSON is a parameter.
--   Node: `BuildNode` of pkg/node/config.go.
--   Simulator: the struct `Kubesim`. Simulator/Pods: `UpdatePodRequest`, `SchedulerPod`, `nextPod`,
--     `Bind`, `Update`, `Close`, `Report`, `CleanStatusPods` and pkg/strategy/strategy.go;
--     Simulator/Runs: the invariant of a run, what it leaves alone, when its wait ends, and runs in
--     which the scheduler binds the pods or refuses one. Simulator/Emulators: the emulators and `CleanPod`.
--     Simulator/Nodes: `AddNodes`, `DeleteNodes`, `ListNodes`. Simulator/Prediction:
--     `PredictionEmulator`.
--     Simulator/Usage: `GetNodeInfo`.
--   Mirror: the real cluster. Mirror/Sync: `SyncWithClient`. Mirror/Watch: the handlers of the
--     watches, and Mirror/Watches the eight watches. Mirror/Sync/Views and Mirror/Watch/Views hold
--     what the fake clientset promises, and see a cluster as partial functions from keys to objects.
--   Jobs: pkg/scheduler/scheduler_emulator.go and the loop of `Run`; Jobs/Answers is what the
--     scheduler answers to the apps of a job.
--   Emulator: the emulators and handlers of pkg/scheduler/emulator.go.
--   Routes: pkg/routes/routes.go: `Server` is the kubesim with the calls on the writer of an answer.
--     Routes/Handles: the routes; Routes/Table: which are registered, also those of pprof.go.
--   Command: the options and `Run` of cmd/kubesim/app; Command/Servers: the rest of `New`,
--     its plugins and servers; Command/Start: the program that it starts, with its tasks;
--     Command/Main: `main` of cmd/kubesim/main.go.
--   Tests: a small cluster, and the theorems at concrete inputs.
--
-- What stands for what. The scheduler is the list `callbacks` of the calls that it will still make,
-- in any order and with any pods and nodes; waiting for the scheduler goes through that list, and
-- blocks when it ends. Operations under a lock are one step. A pointer that may be nil and a map
-- lookup are options; a nil dereference, a closed channel and a slice bound are the result `panics`.
-- A call that comes when the run has ended is in Simulator/Runs/Late.
-- Go's int is ℕ where the code keeps it from being negative, and ℤ for the number of nodes of a
-- request, which no parser checks; int32 and int64 wrap around.
--
-- Fuel. `CleanPod`, `AddNodes` and the search of `PredictionEmulator` have no bound of their own and
-- take `fuel`; without fuel they block, which stands for running on. For the search, a number of
-- rounds above `measure` is enough. `digits_loop` and `scale` get fuel that covers all their inputs.
--
-- Not modelled: calls of the scheduler at the same time (`Bind` takes no lock), logging, the command's
-- help, and everything under vendor, to which the JSON library, httprouter, net/http/pprof, the muxes and the serving of health checks belong here. Which calls an
-- informer makes is a list of calls. The pod conditions after the one that stops a run are
-- not looked at again: a pod has one condition of each type. Timestamps, addresses and constant system
-- information are left out.
pub mod Prelude
pub mod Queue
pub mod Platform
pub mod Report
pub mod Utils
pub mod Node
pub mod Simulator
pub mod Mirror
pub mod Jobs
pub mod Emulator
pub mod Routes
pub mod Command
pub mod Tests
