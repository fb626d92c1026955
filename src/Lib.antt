-- ===== src/Lib.antt =====
-- Verification library of the VNST backend, the server behind the stablecoin VNST: wallets log in
-- with a signature, may have a confirmed mail address, and are told of their mints and redemptions on
-- two chains, BNB (events of a contract) and TON (transactions of a contract).
--
-- The parts, and the code that each models:
-- - Base: names of the library passed on, tests on numbers, lists (Base/Lists), JavaScript strings as
--   lists of UTF-16 units (Base/Texts), and effects (Base/Effect). An operation takes the state `W` of
--   everything outside of the program and ends with a value or an exception; what was done before an
--   exception stays done. A promise that is not awaited is run in its place, without its failure.
-- - Schema: src/schema and src/utils/constant. Documents are records, an optional property an Option.
--   Amounts (Schema/Amount) keep a quotient by a power of ten exactly, without binary rounding.
-- - External: what the program calls and does not implement, as records of operations: mongoose's
--   models, the queue, the cache, the mailer, the contract's node, the clock, the random source. They
--   are parameters of every definition; a theorem names what it relies on.
-- - Utils: src/utils/helpers.ts, src/utils/dto and src/pipe. `addCommas` walks over the text in place
--   of its regular expression; `retry` is recursion on the rounds left.
-- - Email: src/modules/email. The templates are kept line by line.
-- - Contract: src/modules/contract/contract.service.ts, and the ABI of src/utils/constant/web3.ts as a value
--   (Contract/VnstAbi). What web3 shows of an event that it decodes by an ABI is a hypothesis
--   (EventLogs/DecodedLaws).
-- - Wallets: src/modules/wallets. `verifyEmail` and `updateEmail` change a copy of the document and
--   save it.
-- - Ton: src/modules/ton. `checkProof` (Ton/Proof, Ton/Bytes,
--   Ton/WalletsData, Ton/WalletKey), `parseTransaction`
--   (Ton/Parse, over an interface of cells), `syncBalances` (Ton/Schedule), the handling and fetching of
--   transactions (Ton/Subscription), and the timer of `start` as a step relation on the flag and the
--   calls under way (Ton/Ticker). Ton/Stored says what the collection of transactions is to do.
-- - Auth: src/modules/auth: both logins, tokens, guards, strategies and the controller.
-- - EventLogs: src/modules/event-logs: the scan in ranges of 5000 blocks, its jobs, their workers, the
--   queries and the totals.
-- - Notifications: src/modules/notification, with the owner's check of the controller.
-- - Merchants: src/modules/merchant-subscriber, and the lists and totals of src/modules/merchant.
-- - Logs: src/modules/transaction-log and src/modules/token-price.
-- - App: src/modules/app. An aggregation of the database is kept as a value (External/Aggregate), which
--   the database, a parameter, answers with groups; the code after it is modelled. Differences of
--   amounts are signed (Schema/Signed).
-- - Http: src/config/exception.config.ts. Utils/Handler: src/helper/handler.ts.
-- Auth uses Wallets and Ton/Proof; EventLogs and Ton use Wallets, Email and the models; all of them use
-- Utils and Schema. Files named ...Laws hold the theorems, Tests their use at concrete inputs.
--
-- Fuel: three loops of the program stop only when a service says so, and run on fuel here: `while
-- (fromBlock <= currentBlockNumber)` (EventLogs/Scan), the pages of `syncBalances` (Ton/Schedule) and the
-- batches of `subscribeToTransactionUpdate` (Ton/Subscription). Running out of fuel is a result of its
-- own, also where `onTransactions` awaits `syncBalances`: nothing follows it then (Ton/Subscription). The
-- parameter `sync_fuel` bounds the pages of one owner's wallets. One round more than there are ranges, a round for each hundred wallets begun, and more rounds
-- than new transactions are enough, since each round
-- takes one range, one page, or one batch. All else recurses on its data.
--
-- Not modelled: the framework's wiring and configuration, logging, the running of aggregations,
-- cryptography, and binary rounding of decimals.
-- Also left out: `formatPriceToWeiValue` of src/helper/handler.ts and all other arithmetic of binary
-- fractions, what no other code uses (src/helper/rest.ts, src/type, the schema User), and `seed` of the token prices, whose call is commented
-- out. The promises of
-- a `Promise.all` run in their order. The workers that share the jobs "insertEventLog" interleave at the
-- update of the collection (EventLogs/Workers); elsewhere one job runs after another, in whatever order.
pub mod Base
pub mod Schema
pub mod Utils
pub mod External
pub mod Email
pub mod Contract
pub mod Http
pub mod Wallets
pub mod Ton
pub mod Auth
pub mod EventLogs
pub mod Notifications
pub mod Merchants
pub mod Logs
pub mod App
pub mod Tests
