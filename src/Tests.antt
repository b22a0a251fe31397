-- ===== src/Tests.antt =====
-- The theorems at concrete inputs, and runs of the handlers.
mod Fixture
mod Slides
mod Input
mod Page
mod Slider
mod Panels
mod Widgets
mod Dialogs
mod Server
mod Timers
mod Packets
