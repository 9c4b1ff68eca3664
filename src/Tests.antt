-- ===== src/Tests.antt =====
-- Runs of the model, and the theorems at concrete inputs.
mod World
mod Config
mod Controller
mod Crd
mod Registration
mod Cluster
mod Stored
mod Api
mod Connection
mod Pods
mod Server
mod Commands
mod Sharing
mod Served
mod Accepts
mod Mock
mod Shelf
mod Typed
mod Offered
