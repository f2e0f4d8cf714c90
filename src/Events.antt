-- ===== src/Events.antt =====
-- examples/qt_eventloop_skeleton/main.cpp: an event loop for one thread.
pub mod Timers
pub mod Dispatcher
pub mod Loop
mod Tests
