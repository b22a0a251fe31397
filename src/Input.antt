-- ===== src/Input.antt =====
-- The handlers of the user's input (resource/js/slides.js, "Scroll", "Swipe", "Keys").
pub mod Wheel
pub mod Keys
pub mod Swipe
pub mod Energy
pub mod Flips
pub mod Covered
