-- ===== src/Tests.antt =====
-- The theorems at concrete inputs, and runs of the model that can be followed in the source.
mod Graph
mod Publish
mod Host
mod Accept
mod Listing
mod Config
mod Tree
mod Updater
mod Worker
mod Local
mod Scheduler
mod Command
mod Controller
mod Queue
mod Registry
mod Remove
mod Package
