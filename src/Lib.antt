-- ===== src/Lib.antt =====
-- A model of license-service, a Go service that issues signed license certificates: a license key
-- grants modules to a bounded number of devices, and a fingerprint has one trial of each module.
-- A client call passes the tenant gate, then the activation domain reads and writes the store and
-- signs a certificate; operators manage keys, grants, devices and trials, and administrators the
-- configuration rows of tenants; an interceptor turns errors into gRPC statuses.
--
-- - Prelude: bytes, lists, integers and decisions that the other parts share. Texts are lists of
--   bytes; what the code reads as runes (a key that is being normalized) is a list of code points.
-- - Xcodes: pkg/xcodes, the error codes with their categories and HTTP statuses, and the result type
--   of the service.
-- - Store: internal/store. Store.Models has the rows and the database, a list of rows for each table;
--   Store.Sql is the interface of what the code uses of gorm, with the documented behaviour of its
--   statements as laws; Store.Key, Store.Entitlement, Store.Device, Store.Trial and Store.App are the
--   functions of internal/store/dal over it; Store.Reply has what the callers see of a statement, and
--   transactions, which keep the database as it was where they fail.
-- - Cert: internal/service/cert, the payload, the canonical JSON writer and the Ed25519 signer;
--   Cert.Parser is parseValue and Cert.Decode UnmarshalCanonical. Texts of times and numbers, Ed25519
--   and base64 are the interfaces Formats and Crypto.
-- - Activation: internal/service/activation. Activation.Keys is key.go; Activation.Slots is
--   occupySlot; Activation.Certificate is signCert; Activation.Handlers has Activate, Deactivate and
--   TrialStart, each as a function from a request and a database to a reply and a database;
--   Activation.Concurrent has their transactions among those of others.
-- - Tenant: internal/tenantres, the gate row of the calling tenant, and the facades of
--   internal/service/service.go behind it.
-- - Admin: internal/service/admin. Admin.Scope is actor.go, Admin.Tenants is app.go; of admin.go,
--   Admin.Expiry is resolveExpiry, Admin.View the read-side view, Admin.Keys the key lifecycle,
--   Admin.Grants the entitlements, trials and public keys, Admin.Devices the devices. The audit lines
--   are left out.
-- - Health and Version: internal/service/health and internal/version.
-- - Rpc: the requests and replies; Rpc.Facade the facades of internal/service/service.go, Rpc.Handler
--   pkg/handler/license.go, Rpc.Wire the chain of interceptors of pkg/server.go around it,
--   Rpc.Client the client of pkg/client.go in front of that.
-- - Interceptor: pkg/interceptor. Startup: the checks of internal/service/helper.go;
--   Startup.Construct, New of internal/service/service.go with the resources it opens, and
--   Connect of pkg/connect.go over it, and the server's NewServer, Start and Stop;
--   Startup.Construct.Jobs is internal/jobs and pkg/option, Startup.Construct.Commands cmd/server.
-- - Migration: pkg/handler/migrate.go, over the rows of license_apps.
-- - System: the writing RPCs together, as steps between databases; System.Roster, what
--   the slots of a key are to its clients; System.Steady, the calls that leave the keys alone;
--   System.Standing, the life of a revocation.
-- - Tests: stand-ins for the outside packages that obey the assumed laws, and runs.
--
-- Conventions. A handler takes an Env: whether its n-th statement is carried out (`up`), the clock at
-- the places that read it, the rate limiter's answer and the fresh identifier. Times are nanoseconds
-- since Go's zero time; a trial's date arithmetic is in UTC days. A Go map is a list of its entries
-- in the order of a range loop. Every loop is by recursion on a list or on the attempts that
-- are left, but for the parser of JSON values, whose fuel is one above the length of the text: a
-- nested value and a member of an object each stand behind a byte of their own. Handlers run one
-- after another, as whole transactions, but for Activation.Concurrent: there the transaction of
-- Activate and the ledger step of TrialStart run between the commits of others, and the lock on the
-- key's row is a hypothesis on what these commit. Counts of rows stay below 2 ^ 31, where the int32
-- of a reply would wrap.
--
-- Not modelled: configuration loading, the gRPC transports, and logging.
pub mod Prelude
pub mod Xcodes
pub mod Store
pub mod Cert
pub mod Activation
pub mod Tenant
pub mod Admin
pub mod Interceptor
pub mod Startup
pub mod Tests
pub mod Health
pub mod Migration
pub mod Rpc
pub mod System
pub mod Version
