-- ===== src/Logger.antt =====
-- src/Logger.cpp and src/Logger.h: the log of measured values in the external RAM, and the view of it
-- that is scrolled and zoomed with the rotary encoder. Rendering is not part of the model.
pub mod Ring
pub mod View
mod Tests
