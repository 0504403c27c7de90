-- ===== src/Frame.antt =====
-- Plugins/FrameSolver/Source/FrameCore: the frame model and the graph algorithms on it.
pub mod Types
pub mod Sort
pub mod Model
pub mod UnionFind
pub mod Connectivity
