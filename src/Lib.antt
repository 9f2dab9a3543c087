-- ===== src/Lib.antt =====
-- VoidBridge: the core of a shared clipboard, internal/ of the repository.
--
-- A device runs a node. It polls the clipboard, seals what the user copies for the other devices
-- of the group, takes the newest clip of those that arrive over its links, and passes it on. A
-- server has accounts, which invites admit to, and a hub that passes sealed messages between the
-- devices of an account. Devices of one network also find and link each other without it, through
-- the peer manager; the relay client keeps a device connected to its server.
--
-- The parts and their files:
--   Base       tests into Bool, lists, Go's maps as association lists, int64, texts as bytes
--   Protocol   internal/protocol/protocol.go: Message the messages and `Newer`, Code the codes
--              and user names and their formats, Crypto what the libraries give, Seal `SealClip`, `OpenClip`,
--              `SealFile` and `OpenFile` with what they bind (Seal/Binding),
--              Link the cipher of a direct link, Frame messages as bytes and frames, Conn the
--              handshake with `Send` and `Recv` (Conn/Agree: two devices on one stream each way)
--   Clipboard  internal/clipboard/clipboard.go: contents, their hash, the clipboard in memory;
--              Image bitmaps, with Dib for what is encoded
--   Node       internal/node: State the node with its links, seen ids and settings, Clips the
--              handlers `Handle`, `LocalCopy` and `poll`, History the recent clips, Files
--              `handleFile` and `expireFiles`, Files/Sender `SendFile`, Files/Commit and
--              Files/Delivery what the receiver stores
--   Server     internal/server: Store the accounts, invites and sessions, Store/Admin their
--              administration, Limiter the limit on failed logins, Hub the connections
--              and the messages between them, Api the HTTP handlers: Api/Account, Api/Console
--              and the routes Api/Mux, with proofs in Api/Steps, Api/Rights, Api/Admins,
--              Api/Guards, Api/Signin, Api/Claim and
--              Api/Overlap
--   Peer       internal/peer: Manager the known devices, targets and links, Address what is done
--              with addresses, Exchange messages and beacons, Run any order of the goroutines,
--              with proofs in Targets, Links, Dial and Spread
--   Relay      internal/relay: Address the server's address, Call the errors of the API, Client a
--              session and the loop `Run`, Backoff its waits
--   Files      internal/files: Name `SafeName`, Folder `uniquePath` and the writer, with proofs in
--              Safe, Saved and Received
--   Update     internal/update: Version the order of versions, Tag their tags, Fetch `Latest` and
--              `Fetch`
--   Config     internal/config: the settings; Config/Devices `rememberDevices` of
--              cmd/voidbridge/transfers.go
--   Listener   cmd/voidbridge-server/listener.go: the first byte of a connection
--   Desktop    cmd/voidbridge: Transfers the list of transfers
--   Tests      concrete runs
--
-- Handlers are functions from a state to a state and a list of effects. A node's clip handler that
-- lets go of its lock in between is two functions, one for each critical section (`admit` and
-- `apply_clip` for `Handle`, `begin_copy` and `commit_copy` for `LocalCopy`), so that others can
-- run between them; `handle_clip` and `local_copy` compose them without an interruption. What the
-- outside answers is an argument: the time, random ids and nonces, whether the disk or the
-- clipboard takes a write. The store keeps memory and disk apart.
--
-- An HTTP request is one step, though its handler takes the lock of the store anew for each
-- operation and Go runs requests at the same time; what holds of sequences of requests is said of
-- requests that do not overlap. Server/Api/Overlap has two handlers after both authentications. In
-- the same way a node's messages about files are taken one after another.
--
-- A send is an effect, and that a failed send closes its link or connection shows as a later
-- disconnection; only the hub's `route` waits for the result, which is an argument there.
--
-- Strings and byte slices are lists of bytes; `Time` and `Seq` are integers with int64's wrap in
-- `add_one64`, and printing them takes twenty digits, enough for 64 bits. Go's pointers to links
-- and connections are numbers. Maps are association lists; where Go ranges over a map, the order
-- of the list stands for Go's order, which is not fixed.
--
-- Parameters: the cipher (AES-256-GCM), with the laws that opening undoes sealing and that a
-- sealed text opens only under its key, nonce and associated data; and the hashes, of which no law
-- is used.
--
-- More parameters: JSON of message headers and of file headers, with the law that what was printed
-- is read back if JSON keeps it (its strings are UTF-8); base64, the parsing of addresses and Go's
-- tests of them, without laws. The bodies of requests are what the JSON decoder gives.
--
-- And: the parsing and printing of addresses in Peer and Relay, GitHub's answers in Update, what the
-- file system answers in Files and Config. No laws of these are used.
--
-- `SendFile` reads its file as `Pieces`, which end, so its loop is structural recursion; a stream of
-- bytes is what a connection gives before it ends. The loop of `uniquePath` has fuel, one more than
-- there are files in the folder, which is proved to be enough.
--
-- The goroutines of the peer manager are events, each a part that holds the lock; a dial that runs
-- is an entry of a list. A session of the relay client is the list of what it reads.
--
-- Not modelled: deadlines and the failing writes of a direct link, its sockets and tickers; the
-- rest of the programs under cmd/, which are glue to the system; the Android app, which is not Go;
-- platform clipboards; the external tools adb and tailscale, but for the list of peers.
pub mod Base
pub mod Protocol
pub mod Clipboard
pub mod Node
pub mod Peer
pub mod Files
pub mod Update
pub mod Server
pub mod Relay
pub mod Listener
pub mod Desktop
pub mod Config
mod Tests
