-- ===== src/Ejar/Errors.antt =====
-- services/exceptions.py: the exception classes, their class attributes as Python resolves them
-- along the base classes, and the map from an HTTP status to an exception.
pub mod Classes
pub mod Status
