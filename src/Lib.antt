-- ===== src/Lib.antt =====
-- Skypier Chat, the TypeScript packages and the web client's logic.
--
-- Two peers exchange encrypted envelopes over libp2p. A live session (packages/network/src/session.ts)
-- sends them, keeps those that cannot be sent in a queue with retries, and stores that queue; its
-- listeners hear of deliveries and of inbound envelopes. A message is sealed for its recipients'
-- devices before it is sent (packages/crypto), and the chat state is stored encrypted
-- (packages/storage). The web client places and answers audio calls, whose signals and chunks of
-- audio go over the session (apps/web/src/hooks). Bots run their tasks at intervals (packages/bot).
--
-- Files.
--   Prelude: shared names, array methods, maps, tests.
--   Protocol: the data of packages/protocol/src/index.ts and of network/src/protocols.ts.
--   Crypto: packages/crypto/src/index.ts. `Platform` stands for x25519, WebCrypto, base64 and UTF-8.
--   Session: the closure of createBrowserLiveSession as the record `Session`, with emitState,
--     persistQueue and the restoring of the queue. `Host` stands for libp2p and the clock: its
--     fields give their answers at the n-th call, and `calls` counts the calls.
--   Session/Send: ensureConnectionToPeer, tryUpgradeLimitedConnection (its part before the first
--     wait, `start_upgrade`, and the rest, `finish_upgrade`), sendProtocolPayloadToPeer,
--     sendEnvelopeToPeer, sendReceiptToPeer, sendAudioCallSignal, sendAudioCallChunk.
--   Session/Queue: computeNextRetryDelay, enqueue, the callback of startRetryLoop (`retry_tick`),
--     retryMessage, flushQueue, each run to its end with no other task in between.
--   Session/Interleave: the same operations as tasks that are interleaved at every await.
--   Session/Broadcast: sendEnvelopeToConnected, sendChatMessageToConnected, sendChatMessageToPeer,
--     over the text that buildEnvelopePayload makes.
--   Session/Groups: joinGroupTopic, leaveGroupTopic, publishGroupMessage, stop. `Pubsub` stands for
--     the pubsub service.
--   Session/Mailbox: requestMailboxProtocol, enqueueMailboxForPeer, pullMailboxFromPeer,
--     ackMailboxFromPeer.
--   Session/Peers: the handlers of peer:connect and peer:disconnect that start registers.
--   Session/Addresses: extractPeerIdFromMultiaddr, relayAddressRank, the lists of relay addresses that
--     createBrowserLiveSession computes (`configure_relays`), buildExplicitRelayDialAddresses.
--   Session/Relays: syncRelayReservationState, dialConfiguredRelays,
--     waitForPreferredRelayReservation, trimExcessConnections. `Network` stands for the dials, the
--     DHT and the closing of connections, as they answer during one operation.
--   Session/Dialling: dialPeer, dialPeerById, requestSyncWithConnectedPeers, and recoverConnectivity
--     for a session that runs.
--   Storage: the types of packages/storage/src/index.ts, with the forms that older versions wrote.
--   Storage/Reactions, Storage/Delivery: toggleMessageReaction, updateMessageDelivery.
--   Storage/Title, Storage/Normal: normalizePersistedState.
--   Storage/Vault: createChatRepository with the storage modes, their fallbacks, encryptPayload,
--     decryptPayload and getVaultKey. `Browser` stands for IndexedDB, localStorage, JSON and
--     WebCrypto.
--   Storage/Attachments: saveAttachmentBlob, loadAttachmentBlob.
--   Playback: the playback pipeline of apps/web/src/hooks/useAudioCall.ts. `Media` stands for the
--     MediaSource and its SourceBuffer.
--   Earcons: apps/web/src/hooks/useCallEarcons.ts. `Audio` stands for the AudioContext.
--   Call: the rest of useAudioCall.ts: the hook's state and references as the record `Store`, and
--     `Phone` for its options, the clock and the browser. Call/Sending: startOutgoingAudio, the
--     recorder's callbacks, the effects of a render. Call/Receiving: ensurePlaybackPipeline,
--     handleIncomingAudioChunk. Call/Signals: handleIncomingSignal. Call/Placing: startCall,
--     acceptCall, rejectCall, endCall, toggleMute, dismissCall, each split at its awaits into tasks.
--   Call/Runs: whatever happens to the hook as a list, with the tasks that wait.
--   Controller: apps/web/src/useChatController.ts, each callback as what it does with the chat state
--     and the selected conversation (`ControllerState`). Controller/Reactions: upsertReactionAuthors,
--     applyReactionEventToConversationMessages. Controller/Bundles: applyReceivedPreKeyBundle.
--     Controller/Conversations: resolveLocalPeerId, createConversationWithPeers and
--     updateConversationConnection. Controller/Edits: markConversationRead, updateMessageCiphertext,
--     updateGroupTitle, deleteConversation, deleteMessage, saveContact, deleteContact.
--     Controller/Inbound: ingestIncomingEnvelope for a message, from the point where its payload has
--     been read (`Content`). Controller/Groups: mergeConversationWithGroupContext. Controller/Calls:
--     appendCallHistoryEntry.
--     Controller/Replay: ingestIncomingEnvelope for reactions and for the answer to a sync request.
--   Bot: runIntervalTask of packages/bot/src/scheduler.ts as a machine over its happenings.
--
-- Not modelled: the start of the session and its protocol handlers (but for the peer events), the
-- answer to a sync request; the reading of payloads and the other callbacks of the controller,
-- among them sendMessage and applyRemotePeerProfile; the rest of the web client's React code but
-- for the hooks of the audio call; the configuration of libp2p; the relay server, which is
-- written in Go.
--
-- Choices. Times are milliseconds, an ISO text being the milliseconds that it denotes. The events
-- are a list, the oldest first. No loop but two needs fuel: each goes over a list that it was given.
-- The drain of the playback pipeline turns as often as chunks wait, which is enough, since each turn
-- takes one; the wait for a relay reservation polls 26 times at most, which is enough for its 12 s.
-- Console output is left out, and so are a storage that refuses a write of the queue, and the base64
-- text of the encrypted state.
pub mod Prelude
pub mod Protocol
pub mod Bot
pub mod Playback
pub mod Earcons
pub mod Call
pub mod Controller
pub mod Crypto
pub mod Session
pub mod Storage
