-- ===== src/Tests.antt =====
-- Runs of the code on concrete inputs. `Samples` has the parameters as executable functions: amounts
-- in whole units, a calendar of one date, a network that works or loses a reply.
mod Samples
mod Books
mod Payments
mod Schedule
mod Queue
mod Route
mod Config
mod System
mod Traffic
mod Orders
