-- ===== src/Lib.antt =====
-- A model of nextendo-demonware, a Go server that speaks the lobby, matchmaking and statistics
-- services of two games. A connection sends tasks; each task reads its arguments with a bdReader,
-- changes a shared store under its lock, and answers through a bdWriter.
--
-- Wire (services.go, matchmaking.go, riftdata.go, ctr_stats.go, ctr_presence.go, ctr_marketplace.go):
-- the typed byte format. Wire/Writer.antt has the methods of bdWriter as functions from buffer to
-- buffer, Wire/Reader.antt those of bdReader as a state monad with errors, Wire/Varint.antt
-- appendVarint and readVarint, Wire/Reply.antt the builders of replies.
--
-- Matchmaker (ctr_async.go, ctr_merge.go): the asynchronous matchmaking. Matchmaker/Types.antt has
-- the records of ctrSearch, ctrRoom and ctrMatchmaker; a pointer to a room is its id in a store of
-- all rooms that were made, since a merge source stays reachable after its removal from m.rooms.
-- Matchmaker/Parse.antt is parseCTRSearch, Rooms.antt the methods of ctrRoom, Enqueue.antt enqueue,
-- Leave.antt cancel, leave and documents, Merge.antt startMerge and finishMerge, Sync.antt syncDoc.
-- Matchmaker/Invariant and its modules show that every handler keeps one invariant, and
-- Matchmaker/Reach.antt takes the handlers together as a transition system.
--
-- Stats (ctr_stats.go): the leaderboards. Stats/Parse.antt is parseStatWrites, Stats/Store.antt the
-- store's write and read, Stats/Handler.antt onCTRStats and statsReply. An int64 is an integer, and a
-- sum of two wraps as the code's does.
--
-- Sessions (matchmaking.go): the public games of service 21. Sessions/Store.antt has what each task
-- does to the table of games, Sessions/Handler.antt reads the tasks' arguments and answers.
--
-- Economy (ctr_economy.go, ctr_marketplace.go): Economy/Account.antt has skuPrice and purchase over a
-- catalog that is a parameter, Economy/Inventory.antt inventoryPage, Economy/Requests.antt the parsers
-- of the shop's requests, and Economy/Market.antt onMarketplace, which composes them.
--
-- Proto (ctr_marketplace.go, ctr_rewards.go): the protobuf messages inside the shop's tasks.
-- Proto/Fields.antt has the fields that are written, Proto/Read.antt economyProto, Proto/Events.antt
-- parseRewardEvents, Proto/Balances.antt parseBalancesRequest, with the ints of its offsets.
--
-- Rewards (ctr_rewards.go, ctr_refresh.go, ctr_challenge_rules.go): Rewards/Races.antt is awardRaces,
-- Rewards/Refresh.antt the daily refresh and the states that are sent of it, Rewards/Challenges.antt
-- the rules of the challenges, and Rewards/Tallies.antt awardChallenges.
--
-- Handshake (handshake.go, bdcrypto.go): Handshake/Crypto.antt has the derivation of keys,
-- Handshake/Frames.antt frame and readFrame, Handshake/Ticket.antt findTicket, Handshake/Identity.antt
-- loadIdentity and tryIdentity (friends.go), Handshake/Auth.antt onClientAuth and the loop of run as a
-- machine that takes one frame at a time, each with the files and the outcome of a write that surround
-- it, and Handshake/Messages.antt sendEncrypted and onEncrypted.
--
-- Presence (friends.go, presence.go, ctr_presence.go): Presence/Table.antt has the tables of connections
-- and of rich presence, with dropOnline in the two steps that it takes under two locks,
-- Presence/Lookup.antt u64s and onlinePlayerFor, Presence/Service.antt
-- onGetUserNames, onUserData and onRichPresence.
--
-- Gates (gates.go, accountlookup.go): Gates/Admission.antt has admitPlayer and the check of a signed
-- token, Gates/Lookup.antt pidForConsoleID and its cache, in the two parts between which the lock is
-- free. Jsonc (jsonc.go): Jsonc/Strip.antt is stripJSONComments.
--
-- Relay (ctr_relay.go): Relay/Address.antt has the slots of a host's address, Relay/Table.antt the
-- table of pairs and ports, and the forwarding of a packet. Nat (nat.go): Nat/Reply.antt has the
-- answer to one packet of serveNAT.
--
-- Bounds. ctrRoom.occupancy follows the chain of merge sources; the model gives it one round more
-- than there are rooms, and a room of the table has a chain of one at most. economyProto has one round
-- more than its input has bytes, of which each round takes one at least; hkdfExpandSHA1 as many as
-- bytes are asked for, of which each adds 20; the padding of a message 16. A w-bit integer is a
-- number, with its wrap-around written out where the code counts. The document of a host is kept by
-- what the code reads of it. A loop over a Go map runs in the order of the ids, and each of its
-- rounds touches its own entry only.
--
-- Not modelled: JSON, base64, the clock and the calendar, hashes, ciphers and random bytes, which are
-- arguments of the definitions that use them; sockets, logs and locks (a step of the model is what runs
-- under one lock; dropOnline and pidForConsoleID, which let go of it in between, are two steps each); the
-- retry of pending identities; the listeners and the dashboard.
pub mod Common
pub mod Economy
pub mod Gates
pub mod Handshake
pub mod Jsonc
pub mod Matchmaker
pub mod Nat
pub mod Presence
pub mod Proto
pub mod Relay
pub mod Rewards
pub mod Sessions
pub mod Stats
pub mod Wire
