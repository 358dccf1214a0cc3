-- ===== src/Html.antt =====
-- HTML as the content engine writes it.
pub mod Escaping
pub mod Checked
pub mod Attributes
pub mod Url
pub mod Types
pub mod Markup
pub mod Serializer
pub mod Document
mod Tests
