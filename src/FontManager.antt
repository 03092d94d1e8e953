-- ===== src/FontManager.antt =====
-- The font service, font-manager/src/main.cpp. Numbers and layouts of the protocol, whose header is not
-- in this repository, are a parameter `Protocol`, and the font's shapes, which stb_truetype computes, a
-- parameter `Shapes`. An `int` is its pattern of 32 bits.
pub mod Protocol
pub mod Replies
pub mod Service
pub mod Rows
mod Examples
