-- ===== src/Lib.antt =====
-- nn-friends, the friends server of the Wii U and the 3DS: a model of its core and what is proved of it.
--
-- The program serves the friends protocol of two consoles. Who is whose friend, who asked whom and who
-- blocks whom is kept by an account core outside the repository; nn-account, an adapter, says which
-- account is behind a PID. The repository keeps the metadata that the consoles want in Postgres, the
-- people connected in memory, and follows the core's events.
--
-- Files and the code that they are about:
--   Prelude      shared names: Boolean tests, keys, lists, association lists for Go's maps (Dict),
--                `(value, error)` results over a state that is passed on also on failure (Outcomes), and
--                rules for what holds after a call that succeeded (Hoare) or that ended (Endings).
--   Errors       the error values of database/database.go and of coregraph/coregraph.go, and gRPC codes.
--   Types        types/connected_user.go, types/platform.go.
--   Coregraph    coregraph/coregraph.go: Services is the outside (the core's and the adapter's calls and
--                the clock, all parameters); Client has the two resolution caches (AccountOfPID,
--                PIDOfAccount); Social the operations on the friend graph; Links PIDsOfAccount.
--   Profilecache profilecache/profilecache.go.
--   Accounts     globals/connected_accounts.go.
--   Database     Tables is the schema of database/init_postgres_wiiu.go and init_postgres_3ds.go; Rows is
--                what SQL does to rows; Server is the state that a handler works on, where a list of
--                Booleans says which of the coming statements the driver refuses; Backend is the interface
--                to the core, which Coregraph.Social fills (core_backend).
--   Wiiu         database/wiiu: Profiles (ensure_profiles.go and the reads), Requests (friend requests),
--                Listing (the incoming and outgoing lists), Blocks (blocking, unblocking, RemoveFriendship),
--                BlockList, Accepting (AcceptFriendRequestAndReturnFriendInfo), Friends (the friend list,
--                GetUserFriendPIDs, GetUserData), Updates (the update_user files).
--   Desk         what a handler works on: the server, the accounts online and the notifications sent. Its
--                children: Wiiu, Own and Answers are nex/friends-wiiu, Ctr is nex/friends-3ds; Ticking is
--                Tick of crossnotify/crossnotify.go; Broadcast is what notifications/wiiu
--                and notifications/3ds send to every friend; Connections is RegisterEx of
--                nex/secure-connection and the connection-ended handler of nex/secure.go; Sending, Keeping and
--                Connected are lemmas on what a database call leaves alone; Reach is every run of the handlers
--                that write globals.ConnectedUsers.
--   Ctr          database/3ds: Friends, Settings, and Profiles (the
--                cached Miis and what is read of a user).
--   Events       coreevents: what one event does (handle, dropAccount, profileUpdated).
--   Erase        erase/erase.go and dropSessions of erase/start.go: the transaction that erases an account.
--   Poller       coreevents/poller.go: the event loop and its cursor, over a Feed (the core's calls and
--                what an event does, as parameters: for the second see Events).
--   Orphans      coreevents/profile.go: PurgeOrphans.
--   Presence     crosspresence/publisher.go (Publisher), Diff of crossnotify/crossnotify.go (Notify), and
--                crosspresence/foreign.go, glue.go and render.go (Foreign), crosspresence/labels.go (Labels).
--   Tests        concrete inputs, and each theorem at one of them.
--
-- Correspondence. A function of the source is the definition of the same name in snake case; a function
-- that changes state takes the state and returns it. Times are seconds. A Go map is an association list
-- without repeated keys, and a range over it visits the list in order, which is one of the orders that Go
-- may choose. Mutexes and the goroutines that only fill a map are taken as atomic steps.
--
-- Bounds and fuel. PIDs and versions are natural numbers; nothing modelled computes with them but the
-- decimal scan of a link's subject, which rejects what does not fit 32 bits. A page of events holds 500.
-- The loops of drain and headVersion run on fuel: more fuel than there are events after the cursor is
-- enough where the core answers, since every full page passes 500 events. The purge of orphans has the
-- 60 attempts of the source.
--
-- Not modelled: encodings on the wire, nex-go, Postgres beyond its statements, HTTP and gRPC glue,
-- configuration and start-up, generated code, cryptography, logging; nor Go's case conversions outside
-- ASCII, which the namespaces and the names of clients are.
pub mod Prelude
pub mod Errors
pub mod Coregraph
pub mod Types
pub mod Profilecache
pub mod Database
pub mod Wiiu
pub mod Accounts
pub mod Erase
pub mod Poller
pub mod Ctr
pub mod Presence
pub mod Desk
pub mod Tests
pub mod Orphans
pub mod Events
