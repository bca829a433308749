-- ===== src/Lib.antt =====
-- A verification library for the Djinn, the coordination daemon of Coordin8 (djinn/): leases, the
-- registry of services, the tuple space, events with mailboxes, and transactions with two-phase
-- commit.
--
-- How the parts interact. Every resource is leased. A `LeaseManager` grants, renews and cancels
-- leases, and its reaper announces those that expired. The other services hold a manager through the
-- trait `Leasing`. A cascade gives up what a lease held when its end is announced, and an orphan
-- sweep gives up what the cascade missed. The registry and the Space look up by templates of
-- attributes, and the proxy finds a capability in the registry and listens for it on a local port.
-- The Space buffers what a transaction writes and takes, enlists with the transaction manager, which
-- admits participants by an allowlist, and as its participant publishes or undoes the work when it is
-- called back. An interceptor checks the token of each call.
--
-- Which file models what, with the functions under their own names:
--   Error, Status      djinn/crates/coordin8-core/src/error.rs; gRPC status codes
--   Lease              djinn/crates/coordin8-core/src/lease.rs
--     Store            djinn/providers/local/src/lease_store.rs
--     Manager          djinn/crates/coordin8-lease/src/manager.rs and reaper.rs
--     Service          djinn/crates/coordin8-lease/src/service.rs
--     Leasing          the trait `Leasing`, with the manager as its implementation
--     Policy, Reaping, Renewal, History   proofs
--   Registry           djinn/crates/coordin8-core/src/registry.rs
--     Matcher          djinn/crates/coordin8-registry/src/matcher.rs
--     Store            djinn/providers/local/src/registry_store.rs
--     Index, Service   djinn/crates/coordin8-registry/src/store.rs and service.rs
--     Matching, Coherence, Ownership      proofs
--   Txn                djinn/crates/coordin8-core/src/txn.rs
--     Store            djinn/providers/local/src/txn_store.rs
--     Participants, Manager               djinn/crates/coordin8-txn/src/manager.rs
--     Service          djinn/crates/coordin8-txn/src/service.rs
--     Allowlist        djinn/crates/coordin8-txn/src/allowlist.rs
--     Calls, TwoPhase, Single, Frame, Outcome, History, Endpoints, Dialled, Permitted   proofs
--   Space              djinn/crates/coordin8-core/src/space.rs
--     Store            djinn/providers/local/src/space_store.rs
--     Manager, Participant   djinn/crates/coordin8-space/src/manager.rs and participant.rs
--     Waiting          djinn/crates/coordin8-space/src/manager.rs, the loops of read and take
--     Service          djinn/crates/coordin8-space/src/service.rs
--     Taking, Isolation, Ending, Blocking proofs
--   Event              djinn/crates/coordin8-core/src/event.rs
--     Store            djinn/providers/local/src/event_store.rs
--     Manager, Service djinn/crates/coordin8-event/src/manager.rs and service.rs
--     Mailbox, Fifo, Delivery, Streams, Sparing   proofs
--   Auth               djinn/crates/coordin8-auth/src/lib.rs
--     Validation       proofs
--   Proxy
--     Manager          djinn/crates/coordin8-proxy/src/manager.rs and local_resolver.rs
--     Service          djinn/crates/coordin8-proxy/src/service.rs
--     Ports, Listeners                    proofs
--   Djinn
--     Sweep            djinn/crates/coordin8-djinn/src/sweep.rs
--     Cascade, RegistryNode, EventNode, SpaceNode, TxnNode
--                      djinn/crates/coordin8-djinn/src/services.rs: the cascade and the sweep of each
--                      service, over its own lease manager
--     Strikes, Orphans, Follow            proofs
--   Dynamo             djinn/providers/dynamo/src/lib.rs and the types of the AWS SDK
--     LeaseStore, TxnStore, RegistryStore, EventStore, SpaceStore
--                      djinn/providers/dynamo/src/lease_store.rs, txn_store.rs, registry_store.rs,
--                      event_store.rs and space_store.rs
--     Creation         djinn/providers/dynamo/src/table.rs
--     Items, Paging    what the stores share: attributes, and the loop over pages
--     Tables, Matching what is documented of a table, and a table beside a map in memory
--     LeaseCalls, TxnCalls and the others  proofs
-- Each component has a module Tests with runs at concrete inputs. Common has what they share.
--
-- How the code is represented. A method on `&self` is a function from the object's state to a result
-- and a state, so that what was written before an error stays. A `DashMap` is an association list
-- whose keys are distinct; the order in which it is iterated is unspecified in the code and that of
-- the list here, and the theorems do not name that order. A `BTreeMap` is a list in ascending order
-- of its keys. A broadcast channel is the list of what was sent. Times are nanoseconds since an
-- epoch. What the code reads from the clock or draws at random is an argument, and so are the date
-- arithmetic of the library `chrono`, whose documented behaviour is a hypothesis where it matters,
-- the answers of participants to the calls of the coordinator, and the check of an endpoint when it
-- enlists. Calls that the code makes in parallel are made in the order of the list. Each method is
-- one step: a call that arrives while another one is in flight comes before or after it. Counters of
-- 64 bits wrap. Loops are recursion on the lists that they run over, so no fuel is needed.
--
-- The text of an endpoint, a template or a header is walked by its characters as Rust's `str` is. The
-- standard library's parser of IP literals, the sockets that the operating system gives, and the
-- library that signs tokens are arguments. A durable stream of events runs over a list of what its
-- client does with each event and of its wake-ups, each with what others do to the manager
-- meanwhile. The proxy tries as many ports as its range has. Its accept loops are told to stop, and end,
-- in steps of their own, and one may end before its proxy is listed.
--
-- A read or a take of the Space that waits runs over a list of the wake-ups that it receives, each
-- with what others do to the manager meanwhile. The list ends where the time is up or the channel is
-- closed.
--
-- The calls of the AWS SDK are an argument, `Client`, over a world that holds the tables. A request
-- keeps its condition, filter or update as the text that the code writes. Where a theorem relies on
-- the service, a record states what is documented of its calls (Dynamo.Tables), of the expressions, and
-- of the pages of a scan. Reads are consistent there only where the earlier writes have reached every
-- replica, and neither others nor the removal of rows by their time to live change the table meanwhile.
-- A loop over pages has fuel, one unit for each page, and more than the items that are left is enough
-- (Dynamo.Paging).
--
-- Not modelled: the stream of the registry; the end of a stream at shutdown; the copying of bytes by
-- the proxy; the configuration of the DynamoDB client; the start of the servers and their registration
-- with each other, logging and tracing, which are calls of other libraries; the clients in other
-- languages.

pub mod Common
pub mod Error
pub mod Status
pub mod Lease
pub mod Registry
pub mod Txn
pub mod Space
pub mod Dynamo
pub mod Event
pub mod Auth
pub mod Proxy
pub mod Djinn
