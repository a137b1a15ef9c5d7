-- ===== src/Lib.antt =====
-- prefixmesh: a mesh of cache nodes that keep the blocks of prompt prefixes. A prompt is cut into
-- blocks of tokens whose ids form a hash chain. A gateway maps block ids to cache nodes by a
-- consistent hash ring, asks the nodes which blocks they have, and answers with the longest cached
-- prefix. The ring comes from a directory, whose replicas agree on a log of membership commands by
-- multi-decree Paxos. The libraries below model these parts, function by function.
--
-- Paxos     internal/paxos. Ballot and Acceptor are paxos.go (MakeBallot, Prepare, Accept), Log is
--           log.go (Commit, FirstUnchosen, Gap), Node is node.go (runSlot, cut at its two waits into
--           phase1 and phase2, catchUpRound, majority), Submission the rest of node.go (Submit over
--           runSlot, RunGapFiller, NewNode's index). System puts the replicas together: a state
--           holds each replica's acceptor, log, round and proposer phase, and the messages ever
--           sent; Step is one move of one replica and Reach what such moves lead to. A message may
--           be delivered late, repeatedly, in any order or never, and a wait may end with errors in
--           place of replies, which covers the goroutines and timeouts of the source.
-- Directory internal/directory. State is state.go (Apply, Ring, HasMember, Members, Subscribe,
--           Unsubscribe); Membership is what one command does, Replicas is the state machine under
--           the log of Paxos. Monitor is monitor.go (the heartbeat tracker, quorumSuspects, a round
--           of runFailureDetector) with Join, Leave and Suspect of server.go, over any call of
--           Submit; Suspicion is about these, and Joining puts Paxos.Submission in for the call.
--           Watch is WatchRing; Transport
--           is the grpcTransport with the handlers Prepare, Accept and Learn that it calls.
-- Chain     internal/chain/chain.go (Root, Next, Chunk, Build).
-- HashRing  internal/hashring/ring.go (New, Owner, Owners, Nodes, Size).
-- BlockStore internal/blockstore/store.go, lru.go and paged.go. Block holds the interface Store and
--           its contract StoreLaws, which Lru.Contract fills; Lru is the LRU store, Paged the paged
--           store, of which Paged.Contract and Paged.Reads show the same for blocks whose payload and
--           one page have at most 2^63 bytes together. Paged has a module for each part of its
--           state: Slots the sampling index, Recency the recency list, Links, Relinking and LinkRuns
--           the pointers of that list, Pages the arena, Invariant what ties them together; Victims,
--           Removal, Eviction and Putting are about evictOne and Put, Runs about sequences of calls.
-- CacheNode internal/cachenode. Server is server.go (Contains, GetBlocks, PutBlocks, Touch and the
--           epoch check) and Warmer is warmer.go (allow, client, Handle), over any Store that keeps
--           its contract; Agent is agent.go (the ring callback, heartbeats, join).
-- Prefetch  internal/prefetch/prefetch.go. Planner is the prefetcher (HandleAccess, sweepLocked,
--           OnRing); it plans over two rings of HashRing, and its commands are what the warmer of a
--           cache node handles.
-- Ringwatch internal/ringwatch/watcher.go: a watcher's ring and clients under ring updates.
-- Gateway   internal/gateway/server.go. Fanout is probeReplica, Matching is matchOnRing and Match,
--           Putting is PutBlocks, Access is emitAccess with Static.
--
-- The files that are named for a property (Agreement, Replicas, Chunks, Identity, Owners, Members,
-- Eviction, Reads, Writes, Epochs, Clients, Suspicion, Joining, Answers, Routing, Contract, Runs,
-- Warming, Joins, Commands, Wanted, Plans, Watching, Wire, Attempts, Submitted) hold the theorems,
-- the Examples the tests.
--
-- Representation. Numbers are natural numbers; uint64 and uint32 arithmetic that can wrap is
-- written with its remainder. A Go map is an association list in the order of insertion, a
-- function, or a list searched by id; what the source lists in the random order of a map is listed
-- in that order here. Ids are lists of bytes. SHA-256, the points of virtual nodes, float64,
-- math/rand, the largest length that `make` is given, proto.Unmarshal and the remote cache nodes are
-- parameters. Mutexes are left out: what runs under one is one step.
--
-- Bounds. A ballot has 8 bits for the replica's index and 56 for the round, so the theorems on
-- replicas assume at most 256 replicas and rounds below 2^56; an epoch has 64 bits, so they assume
-- fewer than 2^64 applied slots. The capacity of a store is below 2^63, so that a sum of two sizes
-- does not wrap; the theorems on paged stores assume at most 2^31 pages, which is what int32 can
-- number. `slot + 1` of Commit wraps at the slot 2^64 - 1, which raises no maxSeen; the theorems on
-- logs that need maxSeen assume slots below it. The loops of Commit and FirstUnchosen end at the
-- first slot that is not recorded, and nothing else is recorded from maxSeen on, so
-- maxSeen - applied + 1 rounds are enough. Put of either
-- store evicts at most every entry, so one round more than there are entries is enough. A join of
-- the agent is given the rounds that begin before its context ends. A loop of Chunk takes at least
-- one token in each round, so as many rounds as tokens are enough.
--
-- Not modelled: the events bus, the select loop of the agent and the waiting of backoff and of the
-- tickers, which only decide what happens when; and the metrics, the command line programs, the
-- generated gRPC code and the load generator, which hold no state of the mesh.
pub mod Prelude
pub mod Paxos
pub mod Directory
pub mod Chain
pub mod HashRing
pub mod BlockStore
pub mod CacheNode
pub mod Gateway
pub mod Ringwatch
pub mod Prefetch
