-- ===== src/Contact.antt =====
-- Contacts: src/libfred/registrable_object/contact.
pub mod Tables
pub mod Filters
pub mod Merge
