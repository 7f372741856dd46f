-- ===== src/Lib.antt =====
-- Verification of SaveMyControllers, the server side of a repair shop for game controllers: the
-- configurator of repairs with its prices, the carts and the orders, the repair cases, the accounts
-- with their sessions and permissions, the files, the outbox of business events with its worker, and
-- what stands around them: the start, the requests, the limits, the tokens and the encryption.
--
-- Parts and files (paths from the repository's root):
--   Prelude         shared tests, lists, sets, and `Action`, the calls that may throw over a store
--   Errors          apps/api/src/modules/core/errors: `DomainError` and its codes
--   Environment     apps/api/src/config/env.schema.ts: the check of the environment at the start
--   Http            apps/api/src/modules/core/http, the check of the origin, and the order of the
--                   middlewares in apps/api/src/main.ts
--   RateLimits      packages/queue/src/rate-limiter.ts and the guard over it: the interface of Redis
--                   (Store), the limiter, and the windows per key that it stands for (Windows)
--   Crypto          packages/crypto: the key of a process, encryption and decryption
--   Pagination      apps/api/src/modules/core/pagination: the window of a page
--   Catalog         apps/api/src/modules/catalog: the lookups that the other parts call, and the
--                   administration of the brands (Brands)
--   Settings        apps/api/src/modules/settings: the typed readers and the write with its history
--   Files           apps/api/src/modules/files and packages/storage: upload, names and access
--   Seeds           prisma/seed: the statuses with their transitions, and the roles (Roles)
--   Configurator    apps/api/src/modules/configurator: `validate` of ConfiguratorService, its data
--                   (Data), groupBy (Grouping), computePrice (Pricing) and the issues (Validate)
--   Orders          apps/api/src/modules/orders: the addresses (Addresses), the carts (Carts), and
--                   createOrder, as its reads and checks (Checkout) and its transaction (Create)
--   Repairs         apps/api/src/modules/repairs: the tables (Data), the cases (Cases), and
--                   changeStatus, as its checks and its transaction (Status)
--   References      nextReferenceSequence of packages/database/src/outbox-claim.ts
--   Companies       apps/api/src/modules/organizations: who may act for a company
--   Authorization   apps/api/src/modules/authorization: the permissions and the guard
--   Outbox          packages/database/src/outbox-claim.ts and apps/api/src/modules/outbox (Repository)
--   Worker          apps/worker: one round of `loop`, the handler, the marks of success and failure
--   Audit           apps/api/src/modules/audit: the append of an entry
--   Identity        apps/api/src/modules/identity: the tables of sessions, tokens and accounts
--                   (Sessions, Tokens, Users), the operations of AuthService (Auth), and the access
--                   tokens with the guard of the routes (AccessTokens)
-- The orders price every line by the configurator and, in one transaction, claim the cart, write the
-- order, its repair cases and their events. The services append to the outbox in the transaction of
-- the change; the worker claims those rows.
--
-- How the code is written here: a table is the list of its rows, in the order in which the database
-- returns them; a function that writes takes the store and returns it, with a result where it may
-- throw. `prisma.$transaction` is `transaction`, which restores the store after a throw (for an order
-- `in_transaction`, which leaves the counters of references as they are, since they are drawn on
-- another connection); a write outside of it stays. A round of the worker runs to its end, its check,
-- its mail and its row of the audit log at once; `Worker.Interleaving` takes them apart, for workers
-- that overlap or stop in between. Where other requests may run between two parts of
-- a call, the parts are functions of their own. `new Date()` is an argument, an instant in
-- milliseconds. Identifiers and hashes are numbers that are compared by equality only. Amounts are
-- whole cents, not negative, and not bounded. The number of a setting, a double in the database, is a
-- whole number that is not negative here, so that negative and fractional rates are left out. Identifiers and tokens that the code draws are
-- arguments (`Drawn`, `CaseDraws`, `OrderDraws`). The messages of errors are those of the code, less
-- the values that three of them quote.
--
-- Parameters, for code that is not in the repository: SHA-256, argon2, the lower case of an address,
-- the length of a password and the encryption, for the accounts (`Env`, `hash_token` and `Decrypt`),
-- of which nothing is assumed; Redis (`Redis`, a record of the three commands with their documented
-- effects); node:crypto and Buffer (`NodeCrypto`, with the laws `NodeLaws`); jsonwebtoken (`Jwt`, with
-- the laws `JwtLaws`); file-type, the tables of Unicode and the answers of the object store
-- and of the insert of a file's row (`Files.Environment`); the schemas of Zod (`safe_parse`), `new URL`, the test of UUID_PATTERN and
-- csrf-csrf. Each law is shown to hold of a concrete function in the tests. The loop of the worker is
-- a list of rounds; no definition needs fuel.
--
-- Not modelled: the controllers, which route to the services; the contracts of Zod, CORS, helmet and
-- the throttler, which libraries interpret; the frontends, logging, the text of a reference, the
-- demonstration catalogue and the migrations.
pub mod Audit
pub mod Authorization
pub mod Catalog
pub mod Companies
pub mod Configurator
pub mod Crypto
pub mod Environment
pub mod Errors
pub mod Files
pub mod Http
pub mod Identity
pub mod Orders
pub mod Outbox
pub mod Pagination
pub mod Prelude
pub mod RateLimits
pub mod References
pub mod Repairs
pub mod Seeds
pub mod Settings
pub mod Worker
