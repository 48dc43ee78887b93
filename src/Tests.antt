-- ===== src/Tests.antt =====
-- Runs on the backend in memory, and the theorems at concrete inputs.
mod RoomTests
mod RoomDataTests
mod AuthTests
mod MessageTests
mod ServerTests
mod MailTests
mod RouterTests
mod RaceTests
mod HearingTests
mod SystemTests
