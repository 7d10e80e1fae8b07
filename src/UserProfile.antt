-- ===== src/UserProfile.antt =====
-- addons/sa_user_profile: the verification of identities, and documents.
pub mod Verification
pub mod Documents
