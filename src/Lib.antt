-- ===== src/Lib.antt =====
-- emeland-io/modelsrv: the server that keeps a landscape model, records every change of it as an
-- event, answers queries about the past, and delivers the events to subscribers.
--
-- The parts and how they interact. A client calls the landscape model (pkg/model), which keeps a
-- map for each kind of resource and sends an event for each change to its sink. A chain of filters
-- (pkg/eventfilter) may stand before the sink. The event manager
-- (internal/events/manager.go) gives out that sink: its recording sink updates the store of latest
-- events, numbers the event, puts it into the history ring and hands it to one notifier for each
-- subscriber. A replica applies the events that it receives to a model of its own
-- (pkg/model/event_apply.go). Files of resources are decoded to documents and applied to the model
-- (pkg/ingress).
--
-- Files and code:
--   Prelude          Go's comparable types, maps, slices and integers
--   CircularQueue    internal/util/circular_queue.go: NewCircularQueue, Enqueue, Dequeue, Push, Peek
--   Event            pkg/events/events.go and history.go: kinds, operations, their names and parsers
--   History          internal/events/history_ring.go: Add, Snapshot, CompactionBoundary
--   View             what a receiver of events holds: the meaning of a sequence of events
--   Latest           internal/events/latest_state.go: Receive, GetEvents
--   Notifier         internal/events/notify.go: enqueue, deliver; Machine is the goroutine `run`
--   Manager          internal/events/manager.go and recording_sink.go; Query is QueryEvents
--   Model            pkg/model/structure.go and structure_capacity.go; Stores names the maps, State
--                    has the generic helpers, Landscape, Access and Catalog the methods by kind,
--                    Findings and Capacities the two kinds with an index; Apply is
--                    event_apply.go, handler_registry.go and handlers_*_gen.go
--   Filter           pkg/eventfilter/chain.go and sink.go: the chain of filters and its sink
--   FindingKinds     pkg/model/finding/finding_kind.go and the registration of finding types
--   Phase0           pkg/eventfilter/phase0: the filter that checks types and parents
--   Resolve          pkg/eventfilter/resolvefindings: the filter that deletes obsolete findings
--   Ingress          pkg/ingress: Values and Lists read the fields of a document, Landscape, Access,
--                    Catalog and Capacity have the `apply` functions by kind, Documents has
--                    ApplyDocument and ApplyAll; Decode, Csv, SpecPath, PrimaryId and Format
--                    are the decoders (json.go, yaml.go, csv.go, format.go)
--   Authz            pkg/authz: who may read a resource, and the lists in headers and annotations
--
-- Choices. A UUID is its number and uuid.Nil is 0. A method that changes a struct is a function from
-- the old state to the new one; a nil pointer or a missing map key is `none`, and an error is a value.
-- A method that holds the lock is one step. Times are arguments. Sequence numbers are uint64 and wrap;
-- the theorems on them ask for fewer than 2 ^ 64 events. The loop of `deliver` takes fuel, five, which
-- is its number of attempts and always enough. Maps are association lists: Go lists a map in no fixed
-- order, and no theorem depends on the order but through the set of what is listed.
--
-- Not modelled: HTTP, the libraries that read JSON, YAML and CSV, which are parameters, and files;
-- logging; the objects behind the interfaces of pkg/model, which
-- are values of a parameter type with the getters that the model calls, so that a change of a stored
-- object through its setters is left out; Go's rational parser behind ParseAmount, a parameter;
-- where the bytes of documents come from (pkg/filesensor), and the texts of errors.
pub mod Prelude
pub mod CircularQueue
pub mod Event
pub mod History
pub mod View
pub mod Latest
pub mod Notifier
pub mod Manager
pub mod Model
pub mod Filter
pub mod Authz
pub mod FindingKinds
pub mod Resolve
pub mod Phase0
pub mod Ingress
