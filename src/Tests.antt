-- ===== src/Tests.antt =====
-- Runs of the modelled code on small data, by the part of the program they run.
mod Data
mod Spool
mod Server
mod Answer
mod Owner
mod Route
mod Pull
mod Content
mod Draft
mod Ask
