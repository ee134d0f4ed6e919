-- ===== src/Tests.antt =====
-- Runs of the model on small inputs, and each theorem at an input where its hypotheses hold.
mod Store
mod Signaling
mod Socket
mod Controller
mod Conference
mod Media
mod Plugin
mod Local
mod Hooks
mod Components
mod Meeting
mod Ringing
mod Wire
