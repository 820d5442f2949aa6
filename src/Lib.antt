-- ===== src/Lib.antt =====
-- GoCollab IDE: an editor for Go programs that several people share over a session's invite code.
--
-- A browser holds the document as a Yjs replica. Its page talks over one WebSocket to a server,
-- which keeps the sessions (the last document state, the pending proposals, the roles) in a state
-- machine replicated by Raft and passes frames between the clients of a session. Editors write
-- the document, end proposals and give roles; proposers submit proposals for a range of the text;
-- viewers watch.
--
-- The browser, src/ide/frontend/src:
--   Platform       what the code calls and does not implement (Yjs, its awareness protocol, btoa and
--                  atob), as operations, and in `Documented` the documented behaviour that theorems
--                  rest on; Sample has an instance that meets it
--   PositionUtils  positionUtils.js: toBase64, fromBase64, encodeRange, resolveRange, isStale
--   Client         the state of an open session in the browser: the React state of
--                  components/IDE.jsx, the sockets and refs of useCollabWS.js, the set staleIds of
--                  components/Sidebar.jsx; the callbacks onParticipants, onProposal, onRoleChange,
--                  onRunResult; send and onUpdate
--   CollabWs       useCollabWS.js: the handlers of the socket, its timer and the awareness; Sockets
--                  the sockets of an effect that runs more than once
--   Ide            components/IDE.jsx: handleRoleChange, handleAcceptProposal,
--                  handleRejectProposal, runCode (split at its request)
--   Sidebar        components/Sidebar.jsx: avatarColor, openProposeModal, submitProposal
--   Landing        components/Landing.jsx and App.jsx: handleCreate, handleJoin; Landing/View the page
--   OutputPanel    components/OutputPanel.jsx: the class of a line of output and the parts of a
--                  compiler's error; Highlight marks the keywords of its message
--   ShareModal     components/ShareModal.jsx
--   Editor         components/EditorPane.jsx and MiniEditor.jsx: the documents and extensions that they
--                  make an editor with
--   View           the elements of a page with the actions they offer; Sidebar/View, OutputPanel/View
--                  and Ide/View are what the components show
--   Session        one open session as a machine over all these events
-- The server, src/ide:
--   Collab         server.go and commands.go: CollabServer, its commands and DoOp
--   Hub            hub.go: the connected clients and their queues
--   Handlers       handlers.go: the HTTP handlers and the frames of a connection
--   Rsm            src/rsm/rsm.go: Submit, reader and leaderCheck as steps that interleave
--   Raft           src/raft/raft.go, one node: its state and what it persists; Elections has
--                  RequestVote and ticker, Replication AppendEntries, heartbeat and Start, Snapshots
--                  Snapshot, InstallSnapshot and applier; Node runs them over the node's events
--   DiskPersister  diskpersister.go: the files of a Raft peer as the writes that replace them
--   EndToEnd       the server from its start over its requests, and with a page
-- Prelude has the shared tests, lists, texts and maps, and Tests the examples.
--
-- A JavaScript string is the list of its UTF-16 code units where its content matters, and an
-- opaque string elsewhere. A handler runs to its end before the next event, as in the browser; a
-- method of the server runs under its lock. An exception is a value: `none`, or a flag that skips
-- the rest. All loops of the code modelled here are structural recursion, but for the split of a
-- message at its keywords, whose fuel, the length of the message, is enough: each round takes a
-- unit at least. A regular expression is the function that runs it. The hash of a name keeps its
-- `>>> 0` as a remainder modulo 2^32, a code unit its 16 bits and a byte its 8. A queue of the
-- server holds 64 messages, after which it drops them, as its channel does. Whether a submission
-- to Raft succeeds, and whether its command is applied if not, is an argument of the handlers. In a
-- node of Raft, that a timer has run out is an event, a restart is Make on what the persister holds
-- once no Save is under way, and an access outside of the log is `none`.
--
-- Not modelled: several nodes of Raft at once, their network (src/demux, src/sockrpc,
-- src/ide/peernet.go), invite codes (src/ide/session.go), the draining of a queue into the network,
-- the request to the Go playground, the undo manager, the listeners that the clean-up of
-- useCollabWS.js takes off, what React and CodeMirror do with an editor, and the styles and icons of
-- the pages.
pub mod Prelude
pub mod Platform
pub mod Sample
pub mod PositionUtils
pub mod Client
pub mod CollabWs
pub mod Ide
pub mod View
pub mod Sidebar
pub mod OutputPanel
pub mod ShareModal
pub mod Landing
pub mod Session
pub mod Collab
pub mod Hub
pub mod Raft
pub mod Rsm
pub mod Handlers
pub mod DiskPersister
pub mod Editor
pub mod EndToEnd
pub mod Tests
