-- ===== src/Frame/Connectivity.antt =====
-- analyzeConnectivity of Plugins/FrameSolver/Source/FrameCore/Private/Connectivity.cpp: which active
-- elements still reach a support, and the clusters that do not.
pub mod Mass
pub mod Loops
pub mod Cluster
pub mod Adds
pub mod Edges
pub mod Comps
pub mod Groups
pub mod Detached
pub mod Support
pub mod Gathered
pub mod Fragments
pub mod Loose
pub mod Tests
