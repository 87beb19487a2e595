-- ===== src/Lib.antt =====
-- A model of the core of the smoke tester, the harness that drives a jambonz system over SIP and
-- its REST API, with the theorems about it.
--
-- The program has a SIP stack of its own (internal/sip) that places and answers calls, an archive
-- of the audio that the calls recorded (internal/recording), a client of the REST API
-- (internal/provision) that sets up an account for a suite of tests, tears it down again, and
-- sweeps away what crashed runs left behind, and a server (internal/webhook) that answers the hooks
-- of the system with the scripts of the test that a call belongs to.
--
-- Prelude holds what the modules share: lists, texts, byte strings, dictionaries, results.
--   Texts are lists of code points and byte strings are lists of numbers below 256. What
--   strings.ToLower and strings.EqualFold make of a letter is the record Letters, an argument; the
--   resolver, whose names are byte strings, takes strings.ToLower whole.
-- Sip/State, Sip/Message and Sip/Call model internal/sip/state.go, messages.go and call.go. The
--   record Call has the fields of Call under its two mutexes. set_state is setState, and each
--   method has a function of its name: send_trying (Trying), send_ringing (Ringing),
--   send_early_media_183, answer, reject, and in Call/Media and Call/Dialog start_recording,
--   stop_recording, send_silence, stop_media, hangup, do_in_dialog, hangup_with_headers. What the
--   SIP library does in a call is an argument: whether it fails, and whether the peer ends the
--   dialog meanwhile, in which case the library's callback sets the state before the method does.
--   Call/Steps gathers the operations, the callback and the goroutine of setState in one step
--   function.
-- Sip/Call/Reinvite models SendReinvite, SendReinviteWithSDP and SendRefer, Sip/Call/Queries what a
--   test asks a call for, and Sip/Dtmf the sending of digits, as the list of the writes to the RTP
--   packet writer, which is an argument. Sip/Stack models the calls, the registration and the end of
--   a stack (uas.go), and Sip/Inbound dispatchInbound with whatever a handler does.
-- Sip/Invite models uac.go and uac_cancel.go; the calls of the SIP library are logged. Sip/SendWav
--   models SendWAV; its loop runs on fuel, one more than the number of bytes, and a round uses up
--   320. Sip/SessionExpires models ParseSessionExpires (messages.go).
-- Sip/Observer models internal/sip/observer.go: the registry of calls by Call-ID, with the calls in
--   a heap, observe_request (observeRequestMiddleware), respond (observedTx.Respond) and the
--   registration in newInboundCall, newOutboundCall and setState (call.go).
-- Sip/Drain models internal/sip/drain.go. The select loop of drainOne is a function of the events
--   that its channels and timers deliver.
-- Sip/Resolver models the DNS server of internal/sip/resolver.go on the bytes of requests and
--   responses. net.LookupIP, net.ParseIP and strings.ToLower are arguments. read_labels runs on
--   fuel, one more than the length of the request; a round uses up at least one byte, so this is
--   enough.
-- Sip/Wav models readTelephonyWAV of internal/sip/call.go. Its loop runs on fuel, the length of the
--   file; a round goes on by at least eight bytes.
-- Recording models internal/recording/archive.go: Archiver (reserve), Sanitize and Wav (wrapWAV).
-- Provision models internal/provision: Tags (tags.go), Types, Api (client.go), Client (the methods
--   of accounts.go, api_keys.go, sip_clients.go and calls.go that the others use), Sweeper
--   (sweeper_accounts.go) and Suite (suite.go). The server, the decoders of encoding/json and the
--   schema validator are the fields of the record Api: any functions. An action returns its result
--   and the requests attempted so far. Whether an attempt leaves the program is the field
--   departure, any function of the attempts: NewRequest may fail, and the contexts of suite.go, of
--   60, 20 and 30 seconds, may have run out. Resources models the methods on what a test
--   provisions, Resources/Managed their Managed methods with the clean-ups of testing.T, and Reads
--   the methods that only read. Bodies and decoders are arguments there.
--
-- Webhook models internal/webhook: Callback (types.go), Correlation (correlation.go), Registry
--   (registry.go) and Server (the handlers of server.go). A *Session is a position in the
--   registry's heap, since a test keeps its session after the registry has forgotten it. A hook's
--   handler is a function from the registry to the new one and the reply; json.Unmarshal and
--   json.Marshal are the fields of the record Codec. Server/Ops gathers what hooks and tests do in
--   one step function.
-- Webhook/Socket models the web socket of a session (ws.go): its queue, its closing and the loop of
--   handleWS as steps; a send on the closed channel is an error value. Webhook/AppSocket models the
--   loop of an application socket (appws.go) over the frames of a connection.
-- Config models internal/config/config.go: Config the lines of the .env file, Settings the record
--   and its defaults, Knobs and Parse the checks of parse, and Root findDotEnv, findRepoRoot and
--   Load. A Duration is a number below 2 ^ 64 in two's complement.
-- Contract models internal/contract: the validator with its cache, and ResolveSchemasRoot. The schema
--   library has a state of its own, so that what the file system and its compiler give comes with
--   each use of the validator, as the record Use.
-- Speech models internal/tts (Prompt: EnsureWAV, fetchLPCM, writeTelephonyWAV) and internal/stt
--   (Transcript: Transcribe, transcribeWithRetry, Normalize). The speech services are arguments.
--
-- Not modelled: sockets, files, timers and logs; the SIP library, its media sessions and SDP; the
-- speech services and the schema library; the fields of the REST resources.
pub mod Prelude
pub mod Sip
pub mod Recording
pub mod Provision
pub mod Webhook
pub mod Config
pub mod Contract
pub mod Speech
