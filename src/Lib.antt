-- ===== src/Lib.antt =====
-- s3-lease: leases on one object of an S3 bucket, and what is built on them.
--
-- A client (package lease) reads and conditionally writes one record. `Require` grants a lease, with
-- an epoch that grows from holder to holder and an authority that ends at a local deadline; `Renew`
-- moves the deadline, `Release` gives the lease back, `Check` asks for it without the store, and
-- `Observe` reads. Package s3store carries the reads and writes to S3 and says what its errors mean.
-- The fenced manifest uses the epoch: a resource accepts no writer of an earlier epoch.
--
-- Which file models which part:
--   lease/api.go, core.go (validateConfig)   Lease/Config.antt: Config, validate_config
--   lease/errors.go                          Lease/Errors.antt: Error, error_is, is_store_error
--   lease/record.go                          Lease/Record.antt, Lease/Record/Uuid.antt
--   lease/core.go                            Lease/State.antt: Core, check, retire_lease, timers
--   lease/operations.go, its sections        Lease/Reads.antt, Lease/Proposals.antt
--   lease/operations.go, its calls           Lease/World.antt, Operations.antt, Mutations.antt
--   lease/api.go (Client)                    Lease/Client.antt: one call, and a list of calls
--   lease/s3store/s3store.go                 Lease/S3Store.antt: get_record, put, classify_error
--   examples/fencedmanifest/manifest.go      Manifest.antt and Manifest/Text, Requests, Records,
--                                            Writer, Rounds (`mutate`, Activate, Publish, Read)
--   recipes/internal/schedule, acquire       Recipes/Schedule.antt, Acquire.antt: delay, acquire_run
--   recipes/internal/holder/holder.go        Recipes/Holder.antt (the loop), Holder/Shutdown,
--                                            Holder/Run
--   recipes/mutex/                           Recipes/Mutex.antt (state and sections), Mutex/Renewal,
--                                            Mutex/Manual (TryLock, Release), Mutex/Scoped
--   recipes/leaderelection/                  Recipes/Election.antt, Election/Run, Recipes/Observer.antt
-- The recipes see the client as the operations of Recipes/Client.antt, which Recipes/CoreClient fills
-- with the calls of package lease. Lease/Safety proves the
-- lease's theorems: each critical section is a step (Safety/Steps), a step is a change that is
-- allowed (Safety/Changes), and what changes cannot undo is lasting. Safety/Spec has the mandate that
-- a client implements, and Safety/Refinement the proof; Safety/Exclusion takes the records of one
-- object in the order in which they were written, by any number of clients. Lease/Progress shows what
-- `Require` achieves when nothing stands in its way. The others stand below the module whose code
-- they are about. Tests has the runs at concrete inputs.
--
-- A critical section (what runs while the mutex of the core is held) is one function of the core.
-- Between two sections, and during every request, other goroutines may take turns: a world has a
-- list of those, each any section that takes no `mutationMu`, or a timer that fires. The store is a
-- parameter over a state of its own and may reply anything; where a theorem needs more of it, the
-- theorem says so. Leases are shared by pointer in the source; here the core has a store of them, and
-- a handle is its number. Times are nanoseconds after the zero time, natural numbers, and a duration
-- is an integer. Where several clients are compared, their clocks agree. The loops of the source end
-- by themselves but one: `mutate` of the manifest makes at most eight attempts
-- (`max_mutation_attempts`), and recursion on what is left of them is the loop itself, not a bound of
-- the model. The loops of the recipes wait for channels: they take the list of what is ready next,
-- and a result `none`, or a state that goes on, says that they still wait.
--
-- Parameters: encoding/json, SHA-256, the random source, the clock and the AWS SDK client. Not
-- modelled: logs, metrics, the text of errors, nil receivers; test/, which has tests.
mod Prelude
pub mod Lease
pub mod Manifest
pub mod Recipes
mod Tests
