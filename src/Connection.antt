-- ===== src/Connection.antt =====
-- Parts of loudmouth/lm-connection.c: the registry of message handlers and the dispatch to them, the
-- replies that are waited for, the server's name in a JID, and how a connection opens and closes.
pub mod Registry
pub mod Priority
pub mod Replies
pub mod Jid
pub mod Link
pub mod Account
pub mod Features
pub mod Login
pub mod Told
pub mod Secure
pub mod Dispatch
pub mod Settings
pub mod Holding
pub mod Blocking
pub mod Sending
pub mod Fixed
pub mod Closing
pub mod Disconnect
