-- ===== src/Save.antt =====
-- src/engine/contactsaverequest.cpp and src/engine/contactsaverequest.h: saving contacts.
--
-- Details has the checks and changes of one contact before it is saved, and Run the request on a list of
-- contacts.
pub mod Details
pub mod Run
mod Thumbnails
mod Settled
mod Recorded
mod Report
mod Updated
mod Tests
