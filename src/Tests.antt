-- ===== src/Tests.antt =====
-- Runs of the operations on fixed inputs, and instances of the theorems.
mod Players
mod Names
mod Wire
mod World
mod Events
mod Tiles
mod Packets
mod Containers
mod Files
mod Coins
mod Stacks
mod Maps
mod Growth
mod Weights
mod Hash
mod Talk
mod Gear
