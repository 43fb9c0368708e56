-- ===== src/Server.antt =====
-- Server.h and Server.cpp: `ServerMaster`, which accepts connections and hands messages to sessions.
pub mod Sessions
pub mod Descriptors
pub mod Turn
pub mod Setup
pub mod Life
