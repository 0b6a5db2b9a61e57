-- ===== src/Lib.antt =====
-- go-homeconnect2mqtt: a daemon that keeps one connection to each Home Connect appliance and
-- mirrors its features to MQTT. This library models the core of that connection.
--
-- How the parts interact. The bridge builds an appliance and a reconnect manager for each
-- configured device (internal/bridge/device.go), from a configuration that was validated at start
-- (internal/config). The manager calls the appliance's Connect and Close. Connect runs the session's
-- handshake and its two bulk requests, and applies what they return to the live features. Behind it
-- a receive loop hands each frame to the request that waits for it or to the appliance, which
-- routes its items to features. On an appliance with a plain websocket each frame passes the
-- application-layer encryption. Changed features go through a publish queue to MQTT, and the items
-- of the link tell whether the appliance is there. Commands come in on topics of the layout, or from
-- the web interface, and end in calls of the appliance. Home Assistant learns of the features by a
-- discovery document. At start and behind each publish the bridge sweeps what its earlier
-- releases, feature sets and documents left retained on the broker. The features of an appliance
-- come from a profile archive.
--
-- Which file models which part:
--   Base        Booleans, lists, options, results, Go's int with its wrap-around, maps as
--               association lists
--   Config      internal/config/{config,defaults,validate}.go: Config, applyDefaults, Validate
--               (an issue is a constructor in place of a message)
--   Reconnect   internal/homeconnect/reconnect.go: Manager.Run as `step`, over what each turn
--               observes (the context, the result of Connect, the clock, the random source);
--               calls of the connection, of OnState and of the clock are kept in a trace
--   Session     internal/homeconnect/session.go: the shared state and each of its critical
--               sections and the uses of its channels, each a step of its own (`Op`), in any order
--   Handshake   internal/homeconnect/session.go: handshake and PostConnectInit in a monad of
--               session state and errors; the outcomes of the requests are a script
--   Message     internal/homeconnect/{message,codes}.go: the frame and the response codes
--   Crypto      internal/homeconnect/crypto.go: AESCrypto, over the primitives as a parameter
--   Profile     internal/profile/{types,description}.go: the refCID tables, an entry and a
--               description with its indexes; parser.go (Xml, Parser) behind the XML decoder; archive.go
--               (Archive) behind the ZIP reader; redact.go, logvalue.go and inventory.go (Redact)
--   Value       internal/homeconnect/entities.go: the casts, over float64 and Go's parsers as a
--               parameter
--   Entity      internal/homeconnect/entities.go: Entity, update, Value, resolveWriteValue
--   Appliance   internal/homeconnect/appliance.go: indexes, routing, WriteValue; entities are
--               shared by pointer there and by position here
--   Layout      internal/layout/layout.go: feature paths and topics, over go-hamqtt's
--               topic.SmartHome as a parameter
--   Devices     internal/profile/devices.go: LoadDevices behind the YAML decoder, ResolveHaID
--   Slug        internal/slug/slug.go: Slug and Fold
--   Translation internal/i18n/enums.go: EnumLabel and EnumValue, over the generated table
--   Command     internal/bridge/{command,dispatch}.go: from a `set` to the calls of the appliance
--               (Programs, Requests, Window, Routing) and the same for the web interface (Web); an
--               attempt meets an appliance and a session that may have changed since the last one
--   Publisher   internal/bridge/device.go: devicePublisher and the worker that drains it, one
--               critical section a step
--   Link        internal/bridge/device.go: onState, reassertLink and setDeviceConnected, with a
--               broker that may be away
--   Discovery   internal/hass/{payload,hamqtt}.go: from a feature to a component of the document
--   Supervisor  internal/bridge/device.go: Device.run, over what each run of the manager comes to
--   Document    internal/hass/discovery.go, internal/bridge/device.go: the gates in front of a device
--               document and publishDiscovery around them
--   Migration   internal/bridge/migrate.go, internal/layout/legacy.go: the plan of the sweep of earlier
--               topics, and what it clears
--   Ownership   internal/hass/{discovery,tombstone}.go: which retained configs are this instance's, and
--               what a document removes; go-hamqtt's bundle is a parameter
--   Orphans     internal/bridge/{reconcile,tombstone}.go: the orphan sweep and the memory of earlier
--               documents, one call a step
--   State       internal/state/store.go: the subscriptions to the store's events, and the device
--               cache (Cache)
--   Bridge      internal/bridge/{bridge,publish}.go: New up to its devices, with buildDevice of device.go;
--               republishDiscovery (Republish), calls that interleave one atomic action a step; the
--               value of a status item
--   Socket      internal/homeconnect/{socket,socket_tls}.go: the constructors and the address
--   Tests       the theorems at concrete inputs
--
-- Bounds. Go's int is a signed 64-bit word (`+64`, `-64`, `wrap64`). Durations are assumed below
-- 2^62 nanoseconds where a theorem adds them. There is no fuel: every loop that is modelled runs
-- over a list, or over the sequence of observations or operations that it is given.
--
-- Not modelled: sockets, TLS, JSON, XML, YAML, ZIP and HTTP (input and output of libraries), the
-- heartbeat, the generated text tables, the rendering of discovery documents, the goroutines that
-- the bridge starts, the plane that it publishes through (glue over go-hamqtt), the web handlers, and
-- the windows in which the bridge reads back what is retained. What is left of the code is input and
-- output or calls of libraries that are not part of the repository.
pub mod Base
pub mod Value
pub mod Message
pub mod Migration
pub mod Ownership
pub mod Orphans
pub mod Document
pub mod Bridge
pub mod Session
pub mod Socket
pub mod Handshake
pub mod Crypto
pub mod Discovery
pub mod Entity
pub mod Appliance
pub mod Layout
pub mod Reconnect
pub mod Config
pub mod Tests
pub mod Profile
pub mod State
pub mod Slug
pub mod Devices
pub mod Link
pub mod Supervisor
pub mod Translation
pub mod Command
pub mod Publisher
