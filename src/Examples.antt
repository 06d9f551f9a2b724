-- ===== src/Examples.antt =====
-- Runs of the modelled code on concrete inputs, and the properties applied to them.
mod Text
mod Pages
mod Blocks
mod Terminal
mod Devices
mod Machine
mod Files
mod Descriptors
