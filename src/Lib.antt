-- ===== src/Lib.antt =====
-- Court4: the account service, the upload service, the persistence of analyses with the deletion of
-- matches, and the two admission controls of the backend, as pure functions on their state, with what
-- they guarantee.
--
-- Parts, and how they interact. The HTTP interface (app/api) first asks the rate limiter, then calls
-- the account service, which keeps users, refresh sessions and account tokens in the database. A
-- signed-in client uploads a video through the upload service, whose sessions live in one database
-- row each and are moved on by client calls, background workers and a reconciliation script. A
-- verified upload becomes an analysis, whose runs, stages, artifacts and jobs the persistence service
-- keeps, and which its owner may delete with its media while workers still save it. An upload or a
-- read of a file is admitted by the capacity tables of the local storage.
--
-- Base       the shared layer: Base/Tests (Boolean tests on numbers), Base/Calls (calls that raise
--            and transactions that roll back), Base/Table and Base/Rows (tables of rows, their
--            queries, updates and deletions), Base/Text (texts and prefixes).
-- RateLimit  app/auth/rate_limit.py: `check` is `AuthRateLimiter.check`; `Attempts` is the
--            `defaultdict(deque)`. RateLimit/Window holds the specification that remembers every
--            attempt, RateLimit/Keys the table of many keys.
-- Storage    app/persistence/storage.py: Storage/Capacity has `reserve_capacity`, `extend`, `release`
--            and `capacity_status`; its children hold one admission (Admission), the books over a
--            process's life (Ledger) and the limits (Limits).
-- Auth       app/auth/service.py, with the rows of app/persistence/models.py. Auth/Text normalizes and
--            validates texts, Auth/Issue makes and checks tokens, Auth/Refresh is `refresh` and
--            `logout`, Auth/Account registration, login, verification, onboarding and the request of
--            a reset, Auth/Password the two changes of password, Auth/Managed the list of sessions
--            and its revocations. The other files prove: Families and OpenTokens the two invariants
--            call by call, Untouched what a call leaves alone, Reach the service as a whole, Rotation
--            and SignOut what refresh and password changes do, Access the tokens and the refusals.
-- Uploads    app/services/uploads.py and scripts/reconcile_multipart_uploads.py. Uploads/Row and
--            Uploads/Verify have the transactions on a locked row, Uploads/Handlers the client calls
--            as wholes, Uploads/Initiate `initiate` on the table. Machine relates all transactions on
--            one row, the deletion of its match included, Lifecycle follows a row from its creation, Admission and Once the table,
--            Settled and Verification the calls.
-- Persistence  app/persistence/service.py, with the rows of app/persistence/models.py. Runs has
--            `start_run`, Transitions `transition_run`, Stages the stage executions, StageArtifacts
--            what they register, Registry the artifacts and the selected player, Prefix the namespace
--            of an attempt, Reserve `reserve_analysis`, Jobs and Saving `persist_job`, Reads
--            `load_job` and the reads of artifacts. Sound proves the invariant call by call, Saves
--            and Races are about saves and transitions that are out of date, Repeats about a
--            reservation that is sent again, Namespaces about the prefixes of two attempts.
-- Matches    app/services/jobs/match_lifecycle.py (Deletion) and source_media.py (SourceMedia): the
--            two deletions. Sound proves that they keep the invariant, Reach relates all writes of
--            the persistence service and of the deletions, Registry is about the loop over the
--            registered objects, Retry about a deletion that is asked for again, Erasure about what
--            a deletion leaves, Removed, Condemned and Forever what no later call takes back.
-- The Tests modules run the code on small inputs and apply the theorems to them.
--
-- How the state is modelled. A transaction is a function from a state to a result and a state; where
-- it raises, `transaction` restores the state. A call that reads before it locks takes two stores:
-- `seen`, read without the lock, and the one that it finds under it; a row that the session of the
-- database loaded before the lock keeps those values after it, unless the code asks for fresh ones. Interleavings are relations:
-- one constructor for each call or transaction, in any order. Identifiers, digests and times are
-- natural numbers, texts are lists of code points, and a subtraction of the source is written as an
-- addition on the other side. argon2, sha256, uuid, secrets, jwt, the clock, the email provider, the
-- object storage and the analysis workflow are arguments, and where a theorem relies on their
-- documented behaviour it says so in a hypothesis. The code has no loop but those over lists, which
-- are structural recursion; the digits of a number are produced on fuel, one more than the number,
-- which is enough because each step divides it by ten.
--
-- Not modelled: messages, log lines, client labels and path handling; texts beyond ASCII, whose case
-- folding and spaces Auth/Text does not know; `discover` and `recovery` of the uploads, and
-- what `initiate` does before its transaction: the validation of the metadata and of the key, and the
-- answer `proxy_required` of a local storage; the ordered lists of the persistence service, the advisory locks of
-- media_guard.py, how object keys are formed and which names are media (both are arguments), the
-- history and the numeric services (tracking, active play, match iq, calibration), the HTTP interface
-- and the web client.
pub mod Base
pub mod RateLimit
pub mod Storage
pub mod Auth
pub mod Uploads
pub mod Persistence
pub mod Matches
