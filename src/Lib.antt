-- ===== src/Lib.antt =====
-- The dashboard of the repository (frontend/src), as functions whose behaviour is proved.
--
-- The dashboard shows a mine's vehicles to a driver or to a supervisor. A message of the telemetry
-- socket, or a frame of a recorded demo, is a value of any type until `isWorldStateSnapshot` has
-- passed it; from then on the program takes it for a `WorldState`. The demo player downloads frames
-- in chunks and reports them one by one. Which view is on screen follows from the role, which the
-- tab remembers or a link sets, and from the address. The supervisor's view lists the vehicles and
-- what is wrong with them, made anew from each world state.
--
-- The parts, and the files that model them:
--   Layout/Views         frontend/src/layout/dashboardViews.ts: tables, hashes, role policies
--   Layout/Navigation    frontend/src/layout/useDashboardNavigation.ts: the hook as steps on its view
--                        and the browser's address and history
--   Layout/Theme         frontend/src/theme.ts: the theme, read, applied and saved
--   Auth/RoleSession     frontend/src/auth/roleSession.ts: reading, saving and clearing the role
--   State/Snapshot       frontend/src/state/worldStateSnapshot.ts: one Boolean function for each test;
--                        Shape describes types as data, Shape/Interfaces and Shape/Operations the
--                        interfaces of types.ts, marked where the test departs from them
--   Simulation/Manifest  frontend/src/simulation/demoPlayback.ts: readDemoManifest
--   Simulation/Frames    the same file: decodeDemoFrames
--   Simulation/ChunkCache  the same file: the cache of createChunkLoader, one load after the other
--   Simulation/Playback  the same file: createDemoPlayback as a state machine
--   State/Telemetry/Socket  frontend/src/state/useTelemetry.ts: the effect with the web socket, as a
--                        state machine
--   State/Telemetry/Demo the same file: the hook on recorded data, around the demo player
--   State/SpatialPoints  frontend/src/state/spatialPoints.ts: which measured points are drawn
--   Settings/Sensors     frontend/src/settings/sensorSettingsApi.ts: types, defaults and lookup
--   Settings/Hook        frontend/src/settings/useSensorSettings.ts as a state machine, with readJson
--   Spatial/Projection   frontend/src/spatial/spatialProjection.ts; Readings has the sensors' part
--   Spatial/RouteGeometry  frontend/src/spatial/routeGeometry.ts
--   Spatial/ForwardHazard  frontend/src/spatial/forwardHazard.ts, from one render to the next
--   Driver/Proximity     frontend/src/driver/ProximityWidget.tsx and driverAwareness.ts, less markup
--   Driver/Dashboard     frontend/src/driver/DriverDashboard.tsx: what it computes, and its banner
--   Driver/Lidar         frontend/src/driver/lidarFrame.ts: Scene, Road and Entities, and the frame
--   Supervisor/HaulEfficiency  frontend/src/supervisor/haulEfficiency.ts, but for efficiencyScale
--   State/World          frontend/src/types.ts: the records of a world state
--   State/RangeReadings  frontend/src/state/rangeReadings.ts
--   State/Selectors      frontend/src/state/selectors.ts
--   Supervisor/ViewModel frontend/src/supervisor/supervisorViewModel.ts: types, tones and issues of a
--                        vehicle; the child modules Vehicles, Issues and View make the whole view
-- A definition has its source's name in snake case. What is proved of a part stands in the child
-- modules Laws, Agreement, Soundness, Refinement, Threat, Trusted, Paths and Angles, and for the
-- supervisor's view in Totals, Kept, Order and Raised; Tests runs the code on concrete values.
--
-- The JavaScript engine is a parameter, `Runtime` in Prelude/Runtime: the doubles with their
-- comparisons and arithmetic, and the text functions that the sources call. A theorem that relies
-- on the engine's behaviour names it as a hypothesis: `KeepsHashes` (lower-casing keeps a
-- lower-case hash), `EqualIsNotAbove` (a number is not above its equal), `IsStorage` (the session
-- storage reads back what it stored), `KeepsUpperCase` (a text in upper case stays as it is),
-- `IsCollation` (`localeCompare` is a consistent comparison), `LeIsTransitive` (`<=` on numbers),
-- `IsTurning` (what adding and taking off a turn does to an angle). `Array.prototype.sort` is the
-- stable insertion sort of Prelude/Sort, which a consistent comparison determines. Tests/Engine has
-- an engine with numbers in thousandths for which they hold. Values of type `unknown` are the data
-- type `Value` of Prelude/Value: property access on a value without the property gives `undefined`,
-- and spreading copies the own properties in order.
--
-- An error that is thrown is `none`, or the step that the `catch` block makes of it. The player is
-- a record of the closure's variables with the timers that have not fired and the calls of
-- `advance` that wait at an `await`; an event is a call of a method, a timer or a settled download,
-- in any order and number, so that every interleaving is a list of events. The telemetry hook is
-- modelled in the same way, with the callbacks of its sockets as events. Every function is
-- structurally recursive, but for the loops that run on fuel. The loop over the rounds of
-- State/SpatialPoints has fuel for 241 rounds, each of which but the last selects at least one of at
-- most 240 points. The loops of Driver/Lidar compare doubles; how long they run depends on the
-- numbers of the world, so their fuel is an argument, and `none` says that it was used up. For the
-- angles of vehicles a fuel of 1 is enough where headings differ by at most one turn, as
-- Driver/Lidar/Angles has it; for the samples of a road no bound is given.
--
-- Not modelled: the markup of the React components, drawing (meshes and scenes), fetch and the
-- decompression of chunks, loads of chunks that overlap, the Python
-- backend and the firmware.
pub mod Prelude
pub mod Layout
pub mod Auth
pub mod Settings
pub mod Spatial
pub mod Driver
pub mod State
pub mod Simulation
pub mod Supervisor
mod Tests
