-- ===== src/Lib.antt =====
-- architect_simulator: a model of the core of the structural simulator and its proofs.
--
-- The program is an Unreal game over an engine for frames and shells. The engine's model
-- (Plugins/FrameSolver/Source/FrameCore) is a list of nodes, members, shells and loads that
-- FrameModel::validate checks and analyzeConnectivity divides into grounded and detached pieces. The
-- game's registry (Source/ArchSim) builds such a model from the members that are placed, queues the
-- changes that the player makes, and hands them to the interactive subsystem
-- (Plugins/FrameSolver/Source/FrameCoreUE), which keeps one session of the engine.
--
-- The files:
--   Base: what the modules share. Base/Real is the arithmetic of double, a parameter: the laws of
--     IEEE 754 are used nowhere, and `integers` stands for it in tests.
--   Frame/Types, Frame/Model: Vec3 and the structs of FrameCore/Public/FrameCore; the lookups
--     nodeIndex, memberIndex and shellIndex. Identifiers of type int are integers without a bound.
--   Frame/Model/Verdict, Checks, Quad, Validate: FrameModel::validate (Private/FrameModel.cpp), each
--     loop as `each` of one check; the hash sets of ids as lists.
--   Frame/UnionFind: the UnionFind of Private/Connectivity.cpp. `find` runs on fuel, one round for
--     each index, and Halving proves that this is enough on every forest; Linking and Components
--     prove what `unite` and a sequence of `unite` do.
--   Frame/Connectivity: the rest of Connectivity.cpp. Loops has its loops over elements and nodes,
--     Cluster the clusters with their mass, Mass the mass integrals; std::map is a list in the order
--     of its keys and std::sort is insertion sort (Frame/Sort). Adds, Edges, Comps, Groups,
--     Detached, Support, Gathered, Fragments and Loose prove what it computes.
--   Interactive: UFrameInteractiveSubsystem (FrameCoreUE/Private/FrameInteractiveSubsystem.cpp), its
--     two pointers as options. Host is what it calls: the engine session (ReSolveSession) and the
--     marshalling are parameters, with no law assumed. Loads has the patch of the nodal loads;
--     Calls, Sessions and Patches prove what they do.
--   Registry: UArchSimModelRegistry (Source/ArchSim/Private/Subsystems/ArchSimModelRegistry.cpp) and
--     the lifecycle of UArchSimMemberData. Model, Solving, Boundary and Members have its operations;
--     a component is named by its place in a list, which is empty once the object is destroyed, and
--     the map of weak pointers holds such places. Calls has a step for each public operation. A
--     failed check() is `none`. Counters of type int32 are natural numbers: they are lengths of
--     lists that stand in memory.
--   Json: frame_v2::Json (Plugins/FrameSolver/Standalone/v2/MiniJson.h) over bytes. dumpString and
--     parseString stand in Json itself; the loop of parseString is structural, one byte for each round,
--     and Mode says where in an escape it stands. Json/Number has to_string and parseNumber; strtod is a
--     parameter, and the digits of a number run on fuel, one round more than the number, which
--     Json/Integers proves enough. Json/Value has the values, with their accessors and dumpInto, and
--     Json/Parse the parser, on two units of fuel for each byte and one more, which Json/Finishes proves
--     enough. An unordered_map is the list of its fields in the order of its iteration. Lengths, Proper,
--     Access, Texts and Values prove what they do.
--   Wire: ParseFrame and SerializeFrame (Plugins/FrameSolver/Standalone/v2/FrameWire.h). ParseFrame's
--     outputs are one result, with an outcome of its own where the fuel of the header's parser ran out,
--     which Wire/Streams excludes.
--   Collapse: runProgressiveCollapse (FrameCore/Private/Collapse.cpp) and CollapseSupport.h. Cleanup has
--     what a step does to its working model, Screen the D/C screen with the selection of the event, Driver
--     the loop, on maxSteps units of fuel, which Finishes proves enough. The factorisation with its solve,
--     the section screens and the local axes are operations of an Engine, with no law assumed. Eligible,
--     Steps, Finishes, Comparison, Order, Worst, Survivors and Debris prove what it does; Candidates lists
--     what the screen chooses from.
--   TensionOnly: runTensionOnly and iterateTO (FrameCore/Private/TensionOnly.cpp), with fnv1aHashBytes of
--     MemberQuery.h. The re-solve session is a state with operations, with no law assumed; a solve's vectors
--     read as 0 beyond their end. Flips, Rounds and Settles prove what it does.
--   Combination: combine and envelope of load cases (FrameCore/Private/Combination.cpp), in Cases, on the
--     results of Combination.h and SolveResult.h. The loops over the cases are folds; Folds, Components,
--     Bounds, Totals and Sums prove what they give.
--
-- Listeners of OnSolveComplete and the engine do not call back into the registry. Not modelled: the
-- solvers and elements (floating-point linear algebra over Eigen), the re-solve
-- engine and the other analyses, the dynamic collapse driver, the v2 dispatcher, the
-- marshalling and the actors of Unreal, persistence, the user interface, the level simulation, and
-- the clients in other languages.
pub mod Base
pub mod Frame
pub mod Interactive
pub mod Registry
pub mod Json
pub mod Wire
pub mod Collapse
pub mod TensionOnly
pub mod Combination
