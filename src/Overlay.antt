-- ===== src/Overlay.antt =====
-- What lies over the slides: dropdowns, sidebars, popups and a zoomed image
-- (resource/js/slides.js, "Sidebar Panel", "PopUp", "Dropdown Window and Share", `unzoomImage`).
pub mod Dropdown
pub mod Placement
pub mod Sidebar
pub mod Popup
pub mod Hashes
pub mod Stack
