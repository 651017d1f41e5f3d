-- ===== src/Lib.antt =====
-- The Rolebook backend: the shared initiative tracker, content requests and the custom catalog, limited
-- uses, the password reset, coins, sharing, sessions.
--
-- internal/handler/initiative.go serves the initiative call of a campaign: participants, their rolls,
-- and whose turn it is. Each request is checked by internal/handler/access.go, the call is read and
-- written through internal/store/initiative.go with an optimistic version, the turns are recomputed
-- by internal/initiative/turnorder.go, and the result goes to the subscribers of
-- internal/initiativehub/hub.go.
--
--   Common      shared notation: texts, lists, integers, and lemmas about them
--   Http        replies and checks that may end a request (internal/handler/response.go)
--   Access      internal/handler/access.go, with the member types of internal/model/campaign.go
--   Initiative  internal/model/initiative.go and internal/initiative/turnorder.go:
--               SortParticipants is `sort_participants`, rotateIDsToFront `rotate_ids_to_front`,
--               TurnOrderParticipantIDs `turn_order`, Resort `resort`, SyncTurnState
--               `sync_turn_state`
--   Hub         internal/initiativehub/hub.go: a channel is the list of what it buffers
--   Tracker     Tracker.Calls is internal/store/initiative.go over a collection, Tracker.Changes the
--               closures of the endpoints, Tracker.Start the call that Start builds, Tracker.Loop
--               mutateWithRetry, Tracker.Endpoints the handlers; the other modules prove
--   Reset       internal/resetstore (the store in memory: MarkSent is `mark_sent`, Get `get_session`);
--               Reset.Flow the reset's part of internal/handler/auth.go and
--               internal/handler/verification.go over the store's interface, `ResetStore`
--   Documents   what the stores below ask of the MongoDB driver: collections of documents by `_id`
--   Catalog     internal/model/custom_equipment.go and custom_spell.go; Catalog.Stores is
--               internal/store/custom_equipment.go, custom_spell.go and the removals of
--               internal/store/player.go; GenerateID is `generate_id`, the loops that allocate an id
--               `allocate_id`; Catalog.Entries and Catalog.Handlers are
--               internal/handler/custom_equipment.go and custom_spell.go, which differ in a `Shelf`
--   Requests    internal/model/content_request.go and internal/store/content_request.go;
--               Requests.Propose is Create of internal/handler/content_request.go, Requests.Decide
--               Approve (`approve`), Deny (`deny_request`), materialise and applyEdit, and
--               Requests.Manage Withdraw, EditPending and the lists; Requests.Moves is the step
--               relation of a request
--   Uses        internal/store/player_limited_uses.go; Uses.Parse and Uses.Endpoints are
--               internal/handler/limited_uses.go; Uses.Counter is the abstract counter
--   Coins       internal/model/coins.go, internal/handler/coins.go and the purse updates of
--               internal/store/player.go
--   Sharing     internal/model/contentvisibility.go, and the read filter and the recipients of
--               internal/handler/journal_share.go
--   Accounts    Register, Login and issueVerificationCode of internal/handler/auth.go
--   Users       internal/store/user.go; Users.Confirm is VerifyEmail and ResendVerification of
--               internal/handler/auth.go, Users.Change is ChangePassword, ChangeEmail,
--               VerifyEmailChange and ResendEmailChange
--   Sessions    internal/middleware/auth.go: Authenticate and RequireAdmin
--   Scenarios   runs at concrete inputs, over collections in memory
--
-- An operation that can fail returns `Fetched`, a check that can end a request `Checked`, a handler a
-- `Reply`. A MongoDB collection is a parameter (`CallCollection`, `PurseCollection`, `Collection`):
-- its operations with what the driver documents of the ones that succeed; of a write of a `Collection`
-- that fails it is assumed that it was applied or not, of the others nothing. Random
-- values, hashes and the standard library's texts are parameters as well. What other clients
-- do to the database between an attempt's read and its write is a parameter of the attempt (`Round`),
-- and so are the clock and new ids; other uses of the hub in between, and other calls inside a handler
-- of the request queue, are left out unless a theorem names them. The loop of mutateWithRetry has its own bound, three attempts, as have the
-- loops that allocate an id; casLimitedUseWith has two, and spendLimitedUse one retry; every other loop
-- goes over a list. Go's int is an integer without bound where only its order is
-- read, and the product of a coin conversion is kept modulo 2^64. A purse counts its coins by natural
-- numbers.
--
-- Not modelled: the SSE stream, JSON, logging, the Redis store and the rest of the server; a read of
-- another store enters by its result.
pub mod Common
pub mod Http
pub mod Access
pub mod Initiative
pub mod Documents
pub mod Hub
pub mod Reset
pub mod Catalog
pub mod Coins
pub mod Requests
pub mod Uses
pub mod Sharing
pub mod Sessions
pub mod Accounts
pub mod Users
pub mod Tracker
pub mod Scenarios
