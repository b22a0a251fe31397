-- ===== src/Slides.antt =====
-- The slides and the stage (resource/js/slides.js, "Slide Appearance Manager").
pub mod Show
pub mod Frame
pub mod Order
pub mod Current
pub mod Change
pub mod Stage
pub mod Race
