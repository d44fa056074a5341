-- ===== src/Lib.antt =====
-- Teploy Dash: a model of the dashboard's operation service, of its incident tracker, of its
-- alert outbox, of its bucket rules, and of its accounts and the gate that every request passes, with
-- what makes them correct.
--
-- The dashboard admits operations (deploys, rollbacks, backups, template installs and so on), runs
-- each as one command of the teploy CLI against a server, one at a time for each target, and keeps
-- a record and an event journal of each on disk. The incident tracker turns the results of checks
-- into incidents, and each incident into alerts: one opening, repeats, one recovery. The outbox keeps
-- the alerts in a journal until each channel has acknowledged them. Backups lie in a
-- bucket whose lifecycle rules Dash merges its own rules into.
--
-- Which file models which part:
--   Operation/Types      internal/operation/types.go: kinds, states, records, errors.
--   Operation/Build      internal/operation/build.go: each Build function (BuildDeploy is
--                        build_deploy, and so on), the timeouts and the grammars (Build/Rules).
--   Operation/Template   build.go: BuildTemplateInstall, Build and redactedRequest.
--   Operation/Journal    store.go and manager.go: retainedSuffix and the pure parts of events.
--   Operation/Manager    manager.go and store.go: the Manager's state, saveOperation, appendEvent,
--                        appendEventLocked (append_event).
--   Operation/Admission  manager.go: enqueue, split where the code drops the lock to call Build:
--                        begin_enqueue is the first critical section and the Build, admit the second.
--   Operation/Lifecycle  manager.go: setRunning, beginStopping, resolveCancellation, finish,
--                        finishReconciled, Cancel, runTarget (next_job), the end of execute (complete) and
--                        the critical sections of Shutdown.
--   Operation/Recovery   manager.go: recover, reconcileOne and Retry.
--   Operation/Retention  manager.go: retire, and the sweepRetention of store.go that it calls.
--   Operation/Target     manager.go: checkTarget and retargetCommand.
--   Operation/Run        any interleaving of the critical sections as a list of actions.
--   Incident             internal/incident/incident.go: policies, rules, incidents, the event that
--                        an incident makes (alert_of), holdFor (hold_for).
--   Incident/Observe     Observe and Retire, with the alerts that they hand to the outbox; in
--                        Incident/Observe/Batch Seed, AdoptOpen, AdoptFailing, ReleaseHolds,
--                        CloseMatching and Sweep.
--   Incident/Run         calls on a tracker, in any order.
--   B2                   internal/b2/rules.go: Merge and WithoutPrefixes on a bucket's lifecycle rules.
--   Alert                internal/alert/alert.go: Event and its view on the wire (wire).
--   Alert/Channels       internal/alert/config.go: Config, Migrate, ChannelsFor.
--   Outbox               internal/outbox/outbox.go: records, options, deliveryID, the backoff.
--   Outbox/Journal       persistLocked, compactLocked and load, on the lines of the journal.
--   Outbox/Send          Send and RecordSuppressed.
--   Outbox/Attempt       deliverDue and attempt, with the answers of the senders as a `Turn`.
--   Outbox/Views         latest, History, ChannelHealth and statusOf.
--   Outbox/Run           calls on the queue, one after another.
--   Access/Caps          internal/caps/caps.go, with the profiles of internal/server/caps.go.
--   Access/Users         internal/server/users.go: the rows of users.json and saveUsersFile.
--   Access/Accounts      users.go: the changes of accounts and principals.
--   Access/Sessions      internal/server/sessions.go and server.go: sessions, failed sign-ins.
--   Access/Routes        internal/server/caps.go: requiredCapabilities (required_capabilities).
--   Access/Start         users.go and server.go: loadUsers, newAuthGate, authenticate, handleSetup.
--   Access/SignIn        server.go: handleLogin, handleChangePassword, handleLogout.
--   Access/Gate          internal/server/server.go: wrap.
-- Examples holds concrete runs.
--
-- How the state corresponds to the code: `Manager` has the maps of the Go struct as association
-- lists, and a map is iterated in the list's order. Times are nanoseconds since Go's zero time, as
-- natural numbers; a `uint64` sequence wraps at 2 ^ 64. The store holds the records and journals
-- that a reader of the disk would see; its list of `faults` says how the next writes end: `wrote`,
-- `lost` (an error, the old file stands) or `visible` (an error after the new file is in place). An
-- empty list means that all later writes succeed. Each action of Operation/Run is one critical
-- section of the manager's lock, and error paths are values of `Result`.
--
-- No fuel is used: every loop of the modelled code is a recursion on the list that it visits.
--
-- Parameters, since their code is elsewhere: the resolver of server names, the probes that the
-- server package installs, the hash of a request, the length of an event's JSON line, UTF-8
-- repair, quoting and decimal printing, the receipt reader's answer, the clock and new identifiers;
-- for the tracker the holds, silences, configured channels and the public URL (`Turn`); for the
-- outbox the digest of an identifier, the configuration that is read and the senders' answers; for
-- the accounts bcrypt, trimming and the grammar of names (`World`), and the digest of a token.
--
-- Not modelled: subscribers and open file handles, goroutine wait groups and the waits of
-- Shutdown, executor slots (they only delay), the start of execute, List and ListLive, the scan of
-- damaged journals, the outbox's worker and its channel-health hooks (what they send are further
-- calls of the queue) and its journals with corrupt lines, the redaction of output text, the summary
-- alert of AnnounceWith, the handlers of the server other than its gate, sign-in, sign-out and the
-- change of a password, and the packages that do network, process or browser work.
mod Common
pub mod Alert
pub mod Operation
pub mod Incident
pub mod Outbox
pub mod B2
pub mod Access
mod Examples
