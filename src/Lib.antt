-- ===== src/Lib.antt =====
-- net_frame: a server in C++ (src) and the script of the presentation page that it delivers
-- (resource/js/slides.js). The page shows slides. In slide mode it flips from one to another, with a lock
-- and timers; in scroll mode it scrolls through them. Over the slides lie sidebars, popups, dropdowns and
-- a zoomed image. The server reads requests, gives them to a handler, and sends the replies.
--
-- Parts, and where they are modelled. A function of the script keeps its name in snake_case; a callback
-- that a function `f` leaves by `setTimeout` is `run_…` beside `f`.
--   Common       numbers, lists, integers.
--   Page         the state: the globals on `window`, and the classes of the elements that the script
--                reads and writes; `Config` holds what no handler writes. Page/Timers has `setTimeout`
--                and `clearTimeout`: the callbacks that wait are a list, each with its handle.
--   Settings     the modes and speeds that the classes of `<body>` ask for, the globals at the start.
--   Overlay      Dropdown (`showDropdown`, `hideDropdown`, `unzoomImage`), Sidebar (`showSidebar`,
--                `hideSidebar`), Popup (`showPopup`, `hidePopup`); Stack is about `window.popupShown`,
--                Hashes has the popups that a fragment opens, Placement where a dropdown is put.
--   Slides       Show (`showSlide`) and Change (`changeSlide`, its buttons); Frame, Order, Current,
--                Stage and Race are about them.
--   Input        Wheel, Keys and Swipe are the three handlers; Energy, Flips and Covered are about them.
--   Navigation   the dots, `updateNavigation`, `updateHash`, the links to slides; Dots is about the dots.
--   Scroll       `updateScroll`; Selection is about it. Elements has the elements that move when they come
--                into view.
--   Panels       the panels that hide on scroll; Counter and Reveal are about them.
--   Slider       the handlers of sliders, controllers and their buttons (with `nextOrFirst` and
--                `prevOrLast` of resource/js/plugins.js); Cycle, Moves, Round and Events are about them;
--                Status has the classes of `<html>` that `sliderStatus` changes, which the sliders share.
--   Dialogs      dialog windows; Memory is about their cookies, Settling about their classes.
--   Form         the button of the contact form; Restore is about its callbacks.
--   Sound        the triggers of sounds; Silence is about them.
--   Layout       heights and widths: `equalizeElements` (Equal), compact panels (Compact), the side menu.
--                All of these share nothing with the state of the page.
--   Session      events and callbacks as a step relation; Overlays, Slides, Scrolling, Input,
--                Lock, Invariant and Release are about all of its steps; Agreement, with its children,
--                is about the slides and the stage at all of its steps.
--   Server       the server. Timer (src/io_loop/timer.cc): Order is about its map, Wake about the wait of
--                the loop between threads, Run about `Process`, Delete about adding and deleting. Connection
--                (src/handler/base_io_handler.cc): Stream, Torn and Closing are about what it sends. Replies
--                (src/handler/http_server_handler.cc): Exchange has what happens to a handler, Numbers, Order
--                and Wire are about the order of replies. Pool
--                (src/thread/thread_pool.cc): Order, Awake and Stopped are about its tasks and threads.
--                Bytes, Packet (src/packet/http_packet.cc), Parser (http_parser.cc there; Fields, EmptyValue
--                and Limits are about headers and bodies) and Encoder (http_encoder.cc there; Chunked
--                and TooLong are about bodies).
--   Tests        a small page and a small server, and the theorems there.
-- `changeSlide` takes the lock and leaves a callback, which calls `showSlide` and leaves the release of
-- the lock. `showSlide` calls `hideDropdown`, `unzoomImage`, `hideSidebar` and `updateNavigation`. The
-- wheel, the keys, swipes, dots and buttons call `changeSlide`; links and the history call `showSlide`.
-- In the server the parser makes packets of what a connection reads, the handler of the requests numbers
-- them and puts the replies in their order, and the connection encodes and writes these. The pool runs
-- the event loops, each with a timer.
--
-- How the model stands to the code. A class of an element is a flag of its record. A jQuery collection
-- is the list of its elements in the order of the document, and a chain of `addClass` and `removeClass`
-- on some of them is `update_where`. A closure is a constructor of `Task` with the variables that it
-- holds. What the browser measures or decides (sizes, offsets, where an element that is scrolled comes to
-- rest) comes with the event; lengths are whole pixels and durations milliseconds, unbounded as the
-- script's numbers are in this range. Loops run over lists, so no fuel is needed, but for three of the
-- server: `Process` of the timer has a round for each item and each queue that is due and one more, the loop
-- over chunks one for each byte and one more (with a chunk size that wraps it may not end), and a number
-- has no more digits than its value and one. A session may run the
-- callbacks that wait in any order; the order of their due times is one of these. An exception is an
-- outcome, which keeps the state that was reached.
--
-- Not modelled: jQuery, TweenLite and the other plugins, of which the model has the requests that the
-- script makes of them (`Trigger`, callbacks that wait) or, for cookies, an interface with a law
-- (`Cookies`); the media in popups; the sharing buttons; parallax; the progress
-- bar; the restart of animations in a slider; the links in dialogs; the detection of browsers; a class
-- `toSlide-` without a number
-- or with a negative one. The slides are taken to be children of one element.
-- In the server a section under a mutex is a step, and a method that takes the lock once is a function;
-- `AddTimeItem` and `DeleteTimeItem` read the clock and the time of the item just before the lock, here with it.
-- What the socket answers, the clock and the callbacks of the third-party tokenizer are inputs; the times
-- are unbounded, but for the `int` that the timer makes of their difference; a connection has fewer than
-- 2 ^ 32 requests, and a body fewer than 2 ^ 31 bytes. Left out are the sockets, epoll and the loop that
-- waits on it, the start of the server, connecting and reading, addresses, and the timers of connections.
pub mod Common
pub mod Page
pub mod Settings
pub mod Overlay
pub mod Slides
pub mod Input
pub mod Navigation
pub mod Scroll
pub mod Session
pub mod Tests
pub mod Dialogs
pub mod Form
pub mod Layout
pub mod Panels
pub mod Server
pub mod Slider
pub mod Sound
