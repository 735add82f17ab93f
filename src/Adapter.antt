-- ===== src/Adapter.antt =====
-- src/django_fast_multipart/parser.py: the Django adapter around the parser of Core.
pub mod Env
pub mod State
pub mod Decoder
pub mod Headers
pub mod Part
pub mod Upload
pub mod Ending
pub mod Parse
pub mod Guards
pub mod Limits
mod Tests
