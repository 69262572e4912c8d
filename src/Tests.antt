-- ===== src/Tests.antt =====
-- The theorems applied to concrete maps, packets, events and answers.
mod Maps
mod Hooks
mod Courses
mod Agent
mod Filters
mod System
mod Packets
mod Tables
mod Events
mod Lives
mod Reports
mod Collections
