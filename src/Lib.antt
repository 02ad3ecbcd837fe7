-- ===== src/Lib.antt =====
-- Damga, a control plane that deploys apps through git. The parts modelled here decide who may act,
-- which repository and namespace belong to whom, and what is on record about a deploy:
--
--   identity  -->  auth  -->  authz        a cookie becomes a session, an account and a membership,
--                                          and these a decision
--   placement                              where an app's environment lives, and who holds a place
--   evidence                               the archive of deploys, as a hash chain
--   deploywatch  -->  evidence             moves a record to what the cluster shows
--   catalog  -->  compose                  plans what installing an entry of the catalogue commits,
--                                          from the template that compose turns into what runs it
--
-- Common holds what they share: the conditional and equality as an interface (Tests), Boolean
-- predicates on lists (Lists), Go's maps as association lists (Map), `(T, error)` as Result, the
-- clock (Clock), `strings` (Text), an index beside a map (Index),
-- `slices.SortFunc` (Sort), and bytes and signed integers for Compose (Bytes, Int).
--
-- Identity models identity/identity.go (the types) and identity/memory/memory.go (the store).
--   Store      Store, New, fold, memberKey
--   Tenants    CreateTenant, UpdateTenant, Tenant, TenantBySlug
--   Accounts   CreateAccount, Account, AccountByEmail, Credential, SetCredential, RehashCredential
--   Members    AddMember, Membership, Memberships, RemoveMember
--   Sessions   CreateSession, Session, DeleteSession, DeleteAccountSessions, PruneExpired
--   Bootstrap  Bootstrap (Bootstrapped reads the field `bootstrapped`)
--   Cases, Owned, Invariant, History, Revocation, Lookups, Ownership and Digests hold proofs.
-- Authz models authz/authz.go and authz/rbac/rbac.go: Authorize and CanDeploy; Authz/Permissions
-- is the permission table that it amounts to.
-- Auth models auth/session.go (Issue, Resolve, Revoke; Host is canonicalHost) and, of
-- server/login.go, subjectFrom and, in Auth/Login, the login handler, which takes the hasher of
-- auth/password.go as an interface; Access, Cookies and Entry hold proofs.
-- Placement models placement/placement.go (Validate, CanonicalRepo, Collision) and, in
-- Placement/Store, placement/memory/memory.go: Put, Get, List, Delete, SetTrigger, TriggersFor,
-- RepoOwner, releaseUnused; Claims, Keeps, History, Isolation, Writes and Conflicts hold
-- proofs.
-- Evidence models evidence/evidence.go (the types), evidence/chain.go (Chain) and
-- evidence/memory/memory.go: Store has Append, Transition and Get, Reads has Current, FindBySource,
-- History, match, Verify, Prune and Refs, and Ids the id that `fmt.Sprintf` makes; Consistent,
-- Fences, Races, Idempotency, Links, Audit, Proofs, Breaks, Current, Pruning, Retained and Learned
-- hold proofs.
-- Deploywatch models internal/deploywatch/deploywatch.go: Reconcile with derive, allowedFrom,
-- admittedImage, admissionRefused, admissionOutcome and progressDeadlineExceeded, over the store of
-- Evidence; Settled and Loop hold proofs. Deploywatch/Sweep models Once of
-- internal/deploywatch/sweep.go; Pages, Exact, Whole, Runs and Lost hold proofs.
-- Compose models compose/convert.go and the types of compose/compose.go that it reads:
--   Variables      magicVar, urlVar, magicKind
--   Interpolation  interpolation, literal, literalExceptSources, refers, sources, imageDefaults
--   Names          objectName, identifier, imageRepo, the images of databases
--   Ports          containerPort, healthPort, httpPath, healthURL
--   Siblings       siblingHost, rewriteSiblings, repointSiblings
--   Workloads      asWorkload, Note.String;  Databases  asDatabase, declaredSources, linkDatabase
--   Convert        Convert, primaryService
-- Their children hold proofs. A regular expression is a reader by clauses that finds the same
-- leftmost matches; the classes of these expressions leave nothing to backtrack over.
-- Catalog models Get of catalog/catalog.go, and its child Plan catalog/plan.go:
--   Secrets    attachSecrets, ownedByDatabase;  Images  pinImages, refusedImage
--   Listening  resolvePorts;                    Made    Plan (Installable is in Plan)
--   Acceptable, Accepted, Mint, Minted, Met and Pinned hold proofs; Acceptable states the schema's
--   rules on images (api/v1alpha1/workload_types.go).
-- Examples runs the model at concrete values.
--
-- A method under the mutex is a function from a store to a result and a store, so an interleaving
-- of concurrent callers is a list of calls, each with what the clock answers during it.
-- TenantBySlug, AccountByEmail and Prune let go of the mutex on the way and are taken as one step.
-- A context and the text of an error are left out; an error is its sentinel. A time is a number of
-- nanoseconds since Go's zero time, in UTC. Numbers are natural numbers where the source counts up
-- from zero in an int64 (Seq, the counts of a result), which 2^63 appends would overflow; a limit
-- and a fence, which a caller may make negative, are integers, and so are the numbers of a
-- Deployment. There are two fuels: that of a decimal number (Evidence/Ids), a step for each digit,
-- where more steps than the number are given, and that of the sweep, a step for each page, where
-- more steps than records are enough.
--
-- Code that is not in the repository is a parameter: the tables of Unicode (Common/Text), SHA-256
-- (Auth, Evidence/Chain) and json.Marshal (Evidence/Chain). `rand.Text` is the token that Issue
-- takes. A panic of json.Marshal on a year past 9999, and Close, are not modelled, nor are Export,
-- which writes a stream, and Retention. A Deployment is the fields that are read of it. The SQL
-- stores, the HTTP handlers beyond login and subjectFrom, the operator,
-- Load, Find, Categories and Tags of catalog/catalog.go, Parse of compose/compose.go, git and the
-- registry are not modelled. What a registry answers for an image is a parameter of a plan (the
-- fields Pin and Ports of its options), and the clock a parameter of the sweep. For Compose,
-- strings.ToLower and strconv.Quote are parameters, a resource.Quantity is its canonical form, and
-- the panic of primaryService on no services is an error.
pub mod Common
pub mod Identity
pub mod Authz
pub mod Auth
pub mod Compose
pub mod Catalog
pub mod Placement
pub mod Evidence
pub mod Deploywatch
pub mod Examples
