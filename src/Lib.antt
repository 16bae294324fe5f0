-- ===== src/Lib.antt =====
-- TBOX-TSP, the telematics service proxy of a vehicle's T-Box: verification library.
--
-- The program is a daemon between the vehicle's applications, an MQTT daemon and the cloud. Its parts
-- here, with the files that model them (paths from the repository's root):
--
-- Lifecycle: the decision of the key provisioning's life cycle and its budgets, src/keyprov_lifecycle.cpp
-- and include/keyprov_lifecycle.h. The decision table is a pure function that only its unit tests call:
-- the coordinator decides by conditions of its own, so what is shown of the table is about the action
-- it chooses. Lifecycle/Clock.antt is the clock source and the lease tests,
-- Lifecycle/Decide.antt the decision table `keyprov_lifecycle_decide`, split at its numbered stages
-- (gates P0 and P1, evidence, release, response, default), Lifecycle/Ledger.antt the class
-- KeyprovBudgetLedger, each method a function on its state.
-- Attempt: src/keyprov_attempt.cpp. Attempt/Canonical.antt has the byte encoders and the sorted sets,
-- Attempt/Snapshot.antt the frozen snapshot and its change dimension, Attempt/Fingerprint.antt the
-- fingerprint, Attempt/Errors.antt the classification of the cloud's protocol errors.
-- Subscription: the business subscriptions. Subscription/Types.antt is include/subscription_types.h,
-- Subscription/Catalog.antt src/subscription_catalog.cpp, Subscription/Builder.antt
-- src/snapshot_builder.cpp, Subscription/Store.antt src/subscription_store.cpp,
-- Subscription/RegistrationState.antt src/registration_state.cpp and Subscription/Registrar.antt
-- src/subscription_registrar.cpp. The registrar uses all the others, as in the source.
-- Gateway: src/vehicle_message_gateway.cpp. Gateway/Envelope.antt validates envelopes, Gateway/Types.antt
-- has the state, Gateway/Exchange.antt the uplink exchange, Gateway/Downlink.antt the downlink handler,
-- Gateway/Sweep.antt the sweeper, start and stop.
-- Protocol: the wire codec of the key provisioning, src/keyprov_protocol.cpp. Protocol/Identity.antt has
-- the session identity and its digests, Protocol/Names.antt the names of the enumerations,
-- Protocol/Messages.antt the data, Protocol/Checks.antt and Protocol/Encode.antt the builders,
-- Protocol/Decode.antt the decoder.
-- KeyStore: the stored record of the key provisioning, src/v2c_key_provisioning_store.cpp.
-- KeyStore/Record.antt is the record, KeyStore/Json.antt the JSON library as the store uses it,
-- KeyStore/Hex.antt the hexadecimal texts, KeyStore/Write.antt and KeyStore/Read.antt the two directions,
-- KeyStore/Load.antt load, save and clear with the migrations of older schemas.
-- Coordinator: parts of src/v2c_key_provisioning_coordinator.cpp, with src/sec_business_key_adapter.cpp
-- (Coordinator/Classification.antt) and src/keyprov_readiness.cpp (Coordinator/Readiness.antt).
-- Coordinator/States.antt is the states and what a restart makes of a stored one, Coordinator/Evidence.antt
-- the epochs of SEC and the stabilisation of its NOT_FOUND, Coordinator/Session.antt the readiness
-- events, the session identity and the gate before every action on the network.
-- Publisher: the bounded queue of downlink events, src/tsp_event_publisher.cpp.
--
-- Files below these state and prove; Prelude.antt has the shared helpers: Boolean tests on the native
-- numbers, integers for `int64_t`, texts as lists of character codes, options
-- and results. Tests has the witnesses.
--
-- Conventions. Machine integers are natural numbers with their wrap-around written out (`u32`, `u64`)
-- where the source computes them; lengths and clocks are not bounded. A section under a lock is one step,
-- and an interleaving is a list of steps. `exchange` releases its locks twice, so it is three steps:
-- entry into the table, publishing, end of the wait; what it read of `stopping_` before the entry is an
-- input of the first. A response is one step, or two: the lookup under the table's lock, and the rest
-- under the entry's (`respond_found`). The gateway's `stop` is three steps, the registrar's connection
-- check two, and the publisher's worker one step for each event it takes, also while it drains after
-- `stop`. The correlation entry that the waiting thread shares with the table is a handle into a store
-- of entries. Several reads of the clock in one step give one
-- time.
--
-- Parameters, since their code is not in the repository: SHA-256, the protobuf parsers and serialisers (on
-- the fields that the source uses), the
-- YAML accessors (an entry is what they return, or that one throws), JSON and base64 encoding, MQTT's
-- answers and connection, SEC's evidence, the clocks, `std::rand` and `std::hash`. No law is assumed of
-- any of them, but of the JSON library in the round trip of the stored record: values are read back as
-- written, and the text of a value, where the library can write it, is parsed to that value
-- (IsFaithful, which Tests/JsonData.antt shows to hold of a small library). Writing the text throws where
-- a text is not UTF-8. `std::map` and `std::unordered_map` are association lists or functions.
--
-- Bounds and fuel. Every loop is structural recursion on its list, except these: a 64-bit number is
-- printed with fuel for 20 digits, which is enough since 2 ^ 64 < 10 ^ 20; the backoff loop recurs on the
-- number of rounds left.
--
-- Not modelled: the steps of the key provisioning's coordinator that send, import, persist and
-- reconcile, and its build lock of generated constants; the route and IPC dispatchers, the relay
-- service, the client library and the application, which connect the parts
-- above; logging, threads, sockets and process start, which are input and output.
pub mod Attempt
pub mod Coordinator
pub mod Gateway
pub mod KeyStore
pub mod Lifecycle
pub mod Prelude
pub mod Protocol
pub mod Publisher
pub mod Subscription
pub mod Tests
