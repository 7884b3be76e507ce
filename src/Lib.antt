-- ===== src/Lib.antt =====
-- A verification library for the core of the program: the containers of base/, the repository of
-- signed commits with its storage (repo/repo.ts, repo/commit.ts), the sessions that sign them
-- (auth/session.ts), the rules of access (repo/auth.ts) and the client's graph of records
-- (cfds/client/graph/adj-list.ts).
--
-- How the parts interact: a repository keeps commits in a storage and asks the trust pool whether
-- the signer of a commit is known, and an authorizer whether that signer may write it. The client
-- keeps the references between the records in an adjacency list, whose sides are hash sets.
--
-- The files and the code that they are about:
--   Base and its children: Boolean tests, lists, maps, sets and sorting as the code uses them of
--     the language. A string is the list of its UTF-16 code units. A Map of the language is a list
--     of pairs in the order of insertion, a Set is a list without repetitions.
--   Collections/Search: base/algorithms.ts (bsearch).
--   Collections/SortedList: base/collections/sorted-list.ts (SortedList).
--   Collections/HashSet: base/collections/hash-map.ts (HashSet).
--   Collections/SetUtils: base/set.ts, for values that `===` compares.
--   Collections/OrderedMap: base/collections/orderedmap.ts (Link, OrderedMap, OrderedMapIter), the
--     links in a store. Collections/LruCache: base/collections/lru-cache.ts (LRUCache).
--   AdjList: cfds/client/graph/adj-list.ts (SimpleAdjacencyList).
--   Commit: repo/commit.ts (Commit), with cfds/base/edit.ts and the namespaces of
--     cfds/base/scheme-types.ts. Records stand behind the interface Records.
--   Objects: cfds/base/object.ts (diff, patch, concatChanges, normalize, diffKeys), with the
--     operations of a type as an interface; Objects/Primitive, Objects/SetType and Objects/MapType:
--     its implementations in cfds/base/types; Objects/Fields: cfds/change/field-change.ts.
--   Session, Session/Pool: auth/session.ts (verifyData, signerIdFromCommit, TrustPool). The keys,
--     the signing algorithm and the encodings are the platform's, the interface Crypto.
--   Authorizer: repo/auth.ts (createSysDirAuthorizer, createWorkspaceAuthorizer,
--     createUserAuthorizer). The values that they read of a repository are parameters.
--   Repo: repo/repo.ts, a module for each concern. Order (compareCommitsAsc, compareCommitsDesc,
--     with compareStrings of base/string.ts), Storage (MemRepoStorage), Records
--     (hasRecordForCommit, commitIsCorrupted, findLatestNonCorruptedCommitForKey,
--     recordForCommit, with the two maps in which the repository keeps their answers), Heads
--     (leavesForKey, pickBestCommitForCurrentClient, headForKey), MergeBase (_findLCAMergeBase,
--     findMergeBase, with intersection of base/set.ts), Unique (commitsWithUniqueRecords), Merge
--     (createMergeRecord), Delta (lastRecordCommitForKey, deltaCompressIfNeeded), Before
--     (findCommitBefore, findLatestAncestorFromCommit), Probable
--     (commitIsHighProbabilityLeaf, commitInGracePeriod), Link (the filter and the batches of
--     persistVerifiedCommits, with slices of base/array.ts).
--   OrderStamp: cfds/base/orderstamp.ts (between), with commonPrefixLen of base/string.ts; Numbers:
--     base/math.ts (randomInt).
--   Hash: base/hash.ts (MurmurHash3). Bloom: base/bloom.ts (BitField, BloomFilter).
--   Sync/Scheduler: net/sync-scheduler.ts (SyncScheduler).
--   Tests: small inputs, and the theorems at them.
--
-- State is passed explicitly: an operation returns the new state beside its answer, and `none` is
-- a failed assertion. A generator returns the list that it yields, run to its end. The loop of
-- bsearch runs on fuel, the length of the array, which is enough on a sorted array. The methods
-- that read records call each other to a depth of three at most, where delta commits stand on
-- full commits, and the search for a merge base takes at most one round more than twice the
-- number of ids that are parents of stored commits. The links of an ordered map are counted with one
-- round more than there are numbers in use, and a cache evicts at most once for each of its keys.
-- Numbers are natural: times, counts and indexes are never negative where the code reads them.
--
-- A record is what the interface Records says of it: its scheme and checksum, and how changes are
-- computed and applied. Heads and merges take the answers of hasRecordForCommit and
-- recordForCommit as functions, which Records/Answers shows them to be while the storage stays.
-- A theorem on a field of a record asks what it needs of the type of that field only, since rich
-- text does not keep the laws that the other types keep.
--
-- Not modelled: the numeric value of a comparison, of which the code reads only the sign; the
-- head that headForKey returns from its cache; what persistVerifiedCommits does behind its
-- batches, the updates for new leaves with the sessions that they bring into the trust pool, and
-- the events; an error in the serialization of a batch of requests, which stands before the try
-- of sendPendingRequests; the caches of verified signatures and of session ids, which only save
-- work; the promises around the verification; key generation, signing and serialization; rich
-- text and its changes; that a patch changes the map of a field in place; the user interface,
-- the servers and the vendored code.
pub mod Base
pub mod Collections
pub mod AdjList
pub mod Commit
pub mod Hash
pub mod Bloom
pub mod Numbers
pub mod Objects
pub mod OrderStamp
pub mod Session
pub mod Authorizer
pub mod Repo
pub mod Sync
pub mod Tests
