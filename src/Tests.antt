-- ===== src/Tests.antt =====
-- Witnesses: the theorems at concrete inputs, over collections that are plain lists.
mod Collections
mod Example
mod Pool
mod Delegation
mod Farming
mod Views
mod Administration
mod Factory
mod Leaving
mod Emulator
mod Unit
