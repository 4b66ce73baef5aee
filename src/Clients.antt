-- ===== src/Clients.antt =====
-- The state that the two clients keep of a workspace: the reducers of the desktop and the mobile app.
pub mod Desktop
pub mod Mobile
