-- ===== src/Lib.antt =====
-- A Single Packet Authorization library and its tools, in Go: fkospa (the library), cmd/fwknop (the
-- client), cmd/fwknopd (the server) and cmd/fwknop-convert (a converter of configuration files). A
-- client builds a message, encodes it to fields behind a digest, encrypts that with AES under a
-- passphrase, and signs it with an HMAC; the server tries its access stanzas on each datagram, and
-- what one of them decrypts goes through the checks of age, replay, user and source before an action.
--
-- The modules and the code:
--   Base             Go's integers, strings, strconv and runes, as far as the code uses them
--   Spa.Error        fkospa/errors.go; a result that is a value or an error
--   Spa.Kinds        the enumerations of fkospa/message_type.go, digest.go, hmac.go, encrypt.go
--   Spa.Message      fkospa/spa.go: Message, the options With..., NewWithOptions, generateRandVal
--   Spa.Validate     fkospa/spa_fields.go, and validate of fkospa/spa_encode.go
--   Spa.Digest       Digest, DigestBase64 (digest.go), ComputeHMAC... (hmac.go), hmacB64Len
--   Spa.Base64       fkospa/base64.go, with the encoder and decoder of encoding/base64 it calls
--   Spa.Kdf          fkospa/kdf.go: EVPBytesToKey
--   Spa.Cipher       fkospa/aes_cbc.go, fkospa/aes_stub.go, and encrypterFor of fkospa/encrypt.go
--   Spa.Encode       Encode and effectiveMessageType of fkospa/spa_encode.go
--   Spa.Decode       decodePlaintext, detectDigestType and verifyDigest of fkospa/spa_decode.go
--   Spa.Wire         proofs about Encode and decodePlaintext
--   Spa.Packet       Encrypt (spa_encode.go) and Decrypt (spa_decode.go)
--   Map              Go's maps with texts as keys
--   BuildInfo        internal/buildinfo/buildinfo.go
--   Koanf            the operations of koanf and pflag that both programs use, with their laws (records
--                    Koanf and KoanfLaws); Layers: what layers make of a setting; Completion: the end of
--                    loading
--   Server.Replay    cmd/fwknopd/replay.go: a map of digests, its expiry and one tick of purgeLoop
--   Server.Access    cmd/fwknopd/access.go: resolve, parseSourceNets and matchSource
--   Server.Processing   cmd/fwknopd/server.go: processSPAPacket; each exit is an Outcome
--   Server.ActionConfig actionsConfig and its merge, of cmd/fwknopd/actions.go
--   Server.Request   buildTemplateContext and the policies of cmd/fwknopd/actions.go
--   Server.Actions   cmd/fwknopd/actions.go, and dispatchAction of cmd/fwknopd/server.go: the rules,
--                    their timers and the commands, with CloseRule taken apart; Interleaving has the steps, in any
--                    order; Lifecycle, Order, Pending and Races follow rules and timers over them, and
--                    Policy is about ports, commands and timeouts
--   Server.Daemon    udpServer of cmd/fwknopd/server.go, with the timers and purgeLoop: the steps of
--                    the whole server; Gate is what it promises
--   Server.Startup   run of cmd/fwknopd/main.go, loadAccessConfig, loadActionTemplate, the PID file;
--                    Ready and Protected are about the daemon that it starts
--   Server.Loading   cmd/fwknopd/config.go: the flags and loadServerConfig; Precedence is about it
--   Server.Main      run of cmd/fwknopd/main.go from the command line, and what it prints; Dump:
--                    dumpConfig; Process: how the process ends
--   Server.Log       cmd/fwknopd/log.go: the sinks of the logger and the lines that they get; Report:
--                    logSPAMessage of cmd/fwknopd/server.go
--   Spa.KeyGen       fkospa/keygen.go
--   Client.Config    cmd/fwknop/config.go: the configuration, keys and types; Offset: parseTimeOffset
--   Client.Flags, Client.Loading   setupFlags and loadConfig of cmd/fwknop/config.go; RcFile:
--                    cmd/fwknop/rcfile.go; Layers, Loads and Precedence are about them
--   Client.Packet    cmd/fwknop/main.go from the settings to the packet, cmd/fwknop/resolve.go
--   Client.Run       run and runKeyGen of cmd/fwknop/main.go, with Sent about it; Output: what is
--                    printed; Send: cmd/fwknop/send.go
--   Client.Keys      proofs about generated keys in the settings of client and server
--   Delivery         client and server together
--   Convert.Lines    what the files of cmd/fwknop-convert share, and helpers.go
--   Convert.Server, Convert.Access, Convert.Client   parseServerConfig, parseAccessConfig and
--                    parseClientStanzas with the classification of the keys; Backend, Reading,
--                    Stanzas and ClientKeys are about them
--   Convert.Output   run, convertClient, convertServer, convertAccess and mapToYAMLNode of
--                    cmd/fwknop-convert; Sorting: sort.Strings; Document and Written are about
--                    the document that is written
--   The modules Tests and those whose names end in Tests have the theorems at concrete inputs, with
--                    the stand-ins of Spa.Fixtures, Server.Fixtures and Koanf.Fixtures
--
-- Texts and keys are lists of bytes, each a number below 256 where a theorem says so. A Go int is an
-- integer without bounds: the fields that the code parses are bounded by the parser (64 bits, or 32
-- for a timeout), and theorems bound the others by hypotheses. Times are nanoseconds since the Unix
-- epoch, without the bounds of time.Time and time.Duration, so a maximum age is taken to be below
-- about 9 * 10^9 seconds; the timeout of a rule wraps as its time.Duration does. Case mapping and TrimSpace are those of ASCII.
--
-- What the code takes from outside is an argument: the hash functions and HMACs (record Hashes, with
-- HashLaws: sizes, and results in bytes), AES in CBC mode (BlockCipher, with CipherLaws: decryption
-- undoes encryption, and both keep lengths), net.ParseIP and the tables of package unicode
-- (Platform), net.ParseIP, net.ParseCIDR and IP.String for the server (Net), the clock, the user and
-- the random draws, and the shell and text/template for the actions (Host). Nothing is assumed about
-- the secrecy or the collisions of a hash or cipher.
--
-- Fuel: generateRandVal runs on 17 rounds, since each adds a digit and 16 are wanted; the loop of
-- the key derivation on as many rounds as it needs bytes, since a hash is not empty; the decoding of
-- runes on the length of the text.
--
-- The actions are run on Unix. A CloseRule that a timer starts is three steps, between which messages
-- and other timers may come: its start, its command, and the deletion of the entry under the lock. A
-- whole OpenRule is one step, and so is the handling of a datagram, at one reading of the clock, and
-- Shutdown.
--
-- The reads of a socket, sockets as they are opened and written, the contents of files and what YAML
-- makes of them or writes, random bytes, HTTP responses, time.ParseDuration, the parsing of the
-- command line (pflag), koanf and the decoding of its values are arguments. A client's stanzas are
-- written in the order that Go goes through its maps, which is an argument; elsewhere the entries of a
-- map are taken in the order of a list.
--
-- A signal comes between the reads of the socket; it does not interrupt the handling of a datagram.
--
-- Not modelled: what the server logs, but for logSPAMessage, and what the client says while it
-- resolves an address; the text of a usage, which is an argument; the programs under examples, which
-- only call the library.
pub mod Base
pub mod Map
pub mod BuildInfo
pub mod Koanf
pub mod Spa
pub mod Server
pub mod Client
pub mod Convert
pub mod Delivery
pub mod DeliveryTests
