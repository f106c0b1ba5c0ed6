-- ===== src/Gnr.antt =====
-- The gnr library: routing of messages between the users of several protocols (gnr/).
pub mod Name
pub mod Node
pub mod Msg
pub mod Event
