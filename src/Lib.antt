-- ===== src/Lib.antt =====
-- The gateway of karshipta (gateway/libs): from the bytes of trackers and operators to the messages
-- that the gateway passes on. This library models the parts below; each file says at its top which
-- code it is about.
--
-- Common: lists, strings as bytes, maps in key order, bit operations, and computations that may read
--   outside a buffer (an Option whose `none` is such a read).
-- Messages: the protobuf messages of proto/, as records.
-- Gt06: the GT06 tracker protocol. Gt06/Types, Crc, Content, Frame and Ack are
--   gateway/libs/herald/src/gt06_parser.cpp, one function for each function of the class Gt06Parser
--   (crc16_x25, parse_content, parse_frame, build_ack); Gt06/Server is the loop of
--   Gt06TcpServer::handleConnection in gateway/libs/herald/src/gt06_tcp_server.cpp, with the socket and
--   the owner of the server as a list of events. Its inner loop takes fuel: one more than the bytes in
--   the buffer, which is enough since every frame takes at least 4 bytes. Floating point numbers and
--   the C library's timegm are a parameter, the record Platform.
-- Relay: RelayTransport of gateway/libs/transport/src/relay_transport.cpp. The record Relay holds its
--   members, and each method is a function from it to the new record and the calls it makes of the
--   callbacks and of the relayly client. The two halves of broadcast are two steps, and the parts of
--   stop five, since other threads and callbacks of the client run in between.
-- Websocket: of WebsocketTransport in gateway/libs/transport/src/websocket_transport.cpp, from_config
--   (Websocket/Bind) and parse_role_from_uri (Websocket/Role). Its loop takes fuel: one more than the
--   bytes of the query, which is enough since each turn drops at least one.
-- Executor: CommandExecutor of gateway/libs/ward/src/command_executor.cpp. Executor/Dispatch is dispatch
--   and its cases, as computations that collect their calls on the vehicle, Executor/Queue is enqueue
--   and run. The vehicle behind WardActions, TelemetryInfo and WardMission is a parameter, the record
--   Vehicle of Executor/Vehicle.
-- HeraldWards: HeraldWardManager of gateway/libs/herald/src/herald_ward_manager.cpp.
--   HeraldWards/Manager has one function for each critical section of ingest and of the stale checker,
--   HeraldWards/System puts them together with the clock and the calls of other threads, which come
--   between any two parts of the stale checker: its marking, its second check and its broadcast. A call
--   of ingest is one step.
-- Missions: WardMission of gateway/libs/ward/src/ward_mission.cpp. Missions/Plan is validate_mission,
--   translate and translate_back, Missions/Passes what state_mutex_ guards, Missions/Worker the jobs.
--   The MAVSDK plugin is a parameter, the record Autopilot.
-- Fleet: the fleet missions of FleetManager in gateway/libs/fleet/src/fleet_manager.cpp. Fleet/Create,
--   Stop and Routes are the requests, Fleet/Outcomes what the ward manager reports. An exception of the
--   store is a value (Fleet/Effects), the store itself an interface with laws (Fleet/MissionStore), and
--   the ward manager and the clocks are parameters. A command may have its outcome before
--   dispatch_command returns, which is inside the step. Fleet/Events has all handlers as steps.
-- Registry: the fleets and the zones of the same class, over the interface FleetZoneStore, and the
--   snapshots that a new client is sent (Registry/Snapshot).
-- Gateway: on_receive of gateway/src/main.cpp, which gives a client's payload to the fleet manager's
--   handlers (Gateway/Receive), and the rejection of a viewer's (Gateway/Viewer). The parser of protocol
--   buffers, the roles and the ward manager are a parameter, the record Surroundings. The ward manager
--   gives the acks of commands back, for the fleet manager that observes them.
-- WardManager: gateway/libs/ward/src/ward_manager.cpp. WardManager/Sections has the critical sections
--   under the mutex of a ward, Locks puts those of many threads in any order, with executors as
--   addresses. Lifecycle is stop, force_stop and the ward's part of remove_ward_impl, Roster the registry
--   and its file, Routing the commands and missions of clients, Requests those about parameters,
--   logs and calibration and the rejection of viewers, Publishing a tick of run_publish_loop,
--   Fence the geofence and run_reconnect_loop.
--   The vehicles, yaml-cpp and the file system are parameters, the records Vehicles, Yaml and Tools. The
--   loop of force_stop takes fuel: one more than the 120 seconds of its deadline, which is enough when a
--   poll takes a second. An executor is enqueued to as in Executor, a mission as in Missions.
--
-- The parts meet where the code does: Gt06 hands its fixes to the ward manager of HeraldWards as Herald
-- messages, Gateway gives the payloads of clients to Fleet and Registry, Fleet takes the outcomes of the
-- commands that it gave to the wards, Executor calls start, pause and notify_interrupted of Missions,
-- and Relay carries the bytes of commands and envelopes. Threads are interleavings: the functions above
-- are steps, and a run is a sequence of them.
--
-- Not modelled: the fleets' stores (SQLite), the state frame of a MAVLink ward,
-- the websocket's clients, imports of mission files, the reading of YAML files, and the console. Log lines
-- are left out, but for the one that notes a device's identity.
pub mod Common
pub mod Messages
pub mod Gt06
pub mod Relay
pub mod Executor
pub mod HeraldWards
pub mod Missions
pub mod Websocket
pub mod Fleet
pub mod Registry
pub mod Gateway
pub mod WardManager
