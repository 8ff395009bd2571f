-- ===== src/Tests.antt =====
-- Runs on small data, one for each of the theorems of the library that has hypotheses.
mod Data
mod Rotations
mod Choices
mod Applications
mod Rooms
mod Credits
mod Accounts
mod Guests
mod Views
mod Api
